-- ===== src/RunSim/Modes.antt =====
-- run_sim.go: the modes that a flag stands for.
use eco_kube.Prelude.{
  ◌≡◌, ◌≢◌, refl, subst, Bool, true, false, none, some, List, [], ◌∷◌, ◌++◌, String, All,
  All-append, arith, Option-cases, Bool-cases, inl, inr, if◌then◌else◌,
}
use mathlib.Core.Option.{some-injective}
use eco_kube.Prelude.Text.{str_eq, eq_iff}
use eco_kube.Prelude.Strings.{lower}
use eco_kube.Policies.Ecokube.{weighted_sum, epsilon_constraint, greedy_normalised}
use eco_kube.RunSim.Flags.{
  is_among, or_weighted_sum, resolve_eco_mode, add_modes, parse_string_slice, parse_eco_modes,
}

abbrev pub IsMode : String → Type 0
unfolding is_among
IsMode m = is_among m (weighted_sum ∷ epsilon_constraint ∷ greedy_normalised ∷ []) ≡ true

abbrev pub NoRepeat : List String → Type 0
unfolding is_among
NoRepeat [] = Unit
NoRepeat (m ∷ ms) = (is_among m ms ≡ false) × NoRepeat ms

resolve_eco_mode-IsMode : (t m : String) → resolve_eco_mode t ≡ some m → IsMode m
unfolding resolve_eco_mode IsMode is_among
resolve_eco_mode-IsMode t m e =
    chosen (is_among (lower t) (weighted_sum ∷ "weighted-sum" ∷ []))
      (is_among (lower t) (epsilon_constraint ∷ "epsilon-constraint" ∷ []))
      (is_among (lower t) (
        greedy_normalised ∷ "het-greedy-normalized" ∷ "greedy-normalised" ∷ "greedy-normalized"
        ∷ []))
      e
  where
    chosen :
        (a b c : Bool)
        → (if a
            then some weighted_sum
            else if b
            then some epsilon_constraint
            else if c
            then some greedy_normalised
            else none)
          ≡ some m
        → IsMode m
    chosen true b c q = subst IsMode (some-injective _ _ q) refl
    chosen false true c q = subst IsMode (some-injective _ _ q) refl
    chosen false false true q = subst IsMode (some-injective _ _ q) refl
    chosen false false false q = cc q

is_among_snoc :
    (x m : String) (ms : List String)
    → is_among x ms ≡ false
    → str_eq m x ≡ false
    → is_among x (ms ++ (m ∷ [])) ≡ false
unfolding is_among
is_among_snoc x m [] h n = ground (arith, eq_iff x m, eq_iff m x)
is_among_snoc x m (y ∷ ys) h n = ground (arith, is_among_snoc x m ys)

NoRepeat-snoc :
    (m : String) (ms : List String)
    → is_among m ms ≡ false
    → NoRepeat ms
    → NoRepeat (ms ++ (m ∷ []))
unfolding NoRepeat is_among
NoRepeat-snoc m [] h r = (refl, tt)
NoRepeat-snoc m (x ∷ xs) h (n, r) =
    (is_among_snoc x m xs n (ground arith), NoRepeat-snoc m xs (ground arith) r)

pub record IsModeList (ms : List String) : Type 0 where
  pub filled : ms ≢ []
  pub known : All IsMode ms
  pub distinct : NoRepeat ms

add_modes_known : (modes ts : List String) → All IsMode modes → All IsMode (add_modes modes ts)
unfolding add_modes
add_modes_known modes [] h = h
add_modes_known modes (t ∷ ts) h = elim (Option-cases (resolve_eco_mode t)) [
  | inl e ↦ rw (e, add_modes) (add_modes_known modes ts h)
  | inr (m, e) ↦ elim (Bool-cases (is_among m modes)) [
    | inl q ↦ rw (e, q, add_modes) (add_modes_known modes ts h)
    | inr q ↦
        rw (e, q, add_modes)
          (add_modes_known (modes ++ (m ∷ [])) ts
            (All-append IsMode modes (m ∷ []) h (resolve_eco_mode-IsMode t m e, tt)))
  ]
]

add_modes_distinct : (modes ts : List String) → NoRepeat modes → NoRepeat (add_modes modes ts)
unfolding add_modes
add_modes_distinct modes [] h = h
add_modes_distinct modes (t ∷ ts) h = elim (Option-cases (resolve_eco_mode t)) [
  | inl e ↦ rw (e, add_modes) (add_modes_distinct modes ts h)
  | inr (m, e) ↦ elim (Bool-cases (is_among m modes)) [
    | inl q ↦ rw (e, q, add_modes) (add_modes_distinct modes ts h)
    | inr q ↦
        rw (e, q, add_modes) (add_modes_distinct (modes ++ (m ∷ [])) ts (NoRepeat-snoc m modes q h))
  ]
]

-- Whatever the flag holds, the modes are one or more of the three, each at most once.
pub parse_eco_modes-IsModeList : (raw : String) → IsModeList (parse_eco_modes raw)
unfolding parse_eco_modes
parse_eco_modes-IsModeList raw =
    go (add_modes [] (parse_string_slice raw)) (add_modes_known [] (parse_string_slice raw) tt)
      (add_modes_distinct [] (parse_string_slice raw) tt)
  where
    go : (ms : List String) → All IsMode ms → NoRepeat ms → IsModeList (or_weighted_sum ms)
    go [] k n = record { filled = λ e. cc e; known = (refl, tt); distinct = (refl, tt) }
    go (m ∷ ms) k n = record { filled = λ e. cc e; known = k; distinct = n }
