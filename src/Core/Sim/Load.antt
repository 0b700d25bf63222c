-- ===== src/Core/Sim/Load.antt =====
-- How many reservations the nodes hold, and how many of them an instant leaves.
use eco_kube.Prelude.{
  ℕ, zero, suc, ◌+◌, ◌≤◌, ◌<◌, ◌≡◌, refl, ap, sym, ◌∙◌, subst, true, false, some, List, [], ◌∷◌,
  All, Any, inl, inr, ◌⊎◌, arith, length, length-append, length-keep_if-le, keep_if, set, get_elem?,
}
use mathlib.Core.Option.{some-injective}
use eco_kube.Prelude.Int.{pos, ◌≤ℤ◌, ltb_ℤ}
use eco_kube.Prelude.Float.{Float64}
use eco_kube.Core.Types.{Time, after, is_zero, zero_time, Reservation, SimulatedNode, Workload}
use eco_kube.Core.Node.{reserve, next_release_after}
use eco_kube.Core.Node.Release.{running, reservations-release, next_release_after-IsNext}
use eco_kube.Core.Sim.{release_all, earliest_end, sooner_end, next_clock}

sooner_keeps :
    (t x e : Time)
    → (x ≡ zero_time) ⊎ (ltb_ℤ t x ≡ true)
    → ltb_ℤ t e ≡ true
    → (ltb_ℤ t (sooner_end x e) ≡ true)
      × ((sooner_end x e ≡ e) ⊎ ((ltb_ℤ t x ≡ true) × (sooner_end x e ≡ x)))
unfolding sooner_end
sooner_keeps t x e h k = ground arith

sooner_first : (t x : Time) → pos 0 ≤ℤ t → ltb_ℤ t x ≡ true → sooner_end x zero_time ≡ x
unfolding sooner_end
sooner_first t x z h = ground arith

sooner_zero : sooner_end zero_time zero_time ≡ zero_time
unfolding sooner_end
sooner_zero = refl

not_zero : (t x : Time) → pos 0 ≤ℤ t → ltb_ℤ t x ≡ true → is_zero x ≡ false
not_zero t x z h = ground arith

module _ {F : Type 0} ⦃d : Float64 F⦄ where
  abbrev pub count : List (SimulatedNode F) → ℕ
  count [] = 0
  count (n ∷ ns) = length n.reservations + count ns

  -- The reservations that end after `t`.
  abbrev pub live : Time → List (SimulatedNode F) → ℕ
  live t [] = 0
  live t (n ∷ ns) = length (running t n.reservations) + live t ns

  -- Every reservation ends after `t`.
  abbrev pub AllLive : Time → List (SimulatedNode F) → Type 0
  AllLive t ns = All (λ n. All (λ r. after r.end t ≡ true) n.reservations) ns

  pub count-release_all :
      (t : Time) (ns : List (SimulatedNode F)) → count (release_all t ns) ≡ live t ns
  unfolding release_all
  count-release_all t [] = refl
  count-release_all t (n ∷ ns) =
      omega (arith, ap length (reservations-release n t), count-release_all t ns)

  running-AllLive :
      (t : Time) (rs : List (Reservation F)) → All (λ r. after r.end t ≡ true) (running t rs)
  unfolding keep_if
  running-AllLive t [] = tt
  running-AllLive t (r ∷ rs) = ground (arith, running-AllLive t rs)

  pub release_all-AllLive : (t : Time) (ns : List (SimulatedNode F)) → AllLive t (release_all t ns)
  unfolding release_all
  release_all-AllLive t [] = tt
  release_all-AllLive t (n ∷ ns) = (
    subst (All (λ r. after r.end t ≡ true)) (sym (reservations-release n t))
        (running-AllLive t n.reservations),
    release_all-AllLive t ns,
  )

  pub live_le : (t : Time) (ns : List (SimulatedNode F)) → live t ns ≤ count ns
  live_le t [] = omega arith
  live_le t (n ∷ ns) =
      omega (arith, length-keep_if-le (λ r. after r.end t) n.reservations, live_le t ns)

  running_later :
      (t t' : Time) (rs : List (Reservation F))
      → t ≤ℤ t'
      → length (running t' rs) ≤ length (running t rs)
  unfolding keep_if
  running_later t t' [] h = omega arith
  running_later t t' (r ∷ rs) h = ground (arith, running_later t t' rs h)

  pub live_later : (t t' : Time) (ns : List (SimulatedNode F)) → t ≤ℤ t' → live t' ns ≤ live t ns
  live_later t t' [] h = omega arith
  live_later t t' (n ∷ ns) h =
      omega (arith, running_later t t' n.reservations h, live_later t t' ns h)

  pub count-reserve :
      (ns : List (SimulatedNode F)) (i : ℕ) (n : SimulatedNode F) (w : Workload F) (t : Time)
      → get_elem? ns i ≡ some n
      → count (set ns i (reserve n w t)) ≡ suc (count ns)
  unfolding reserve
  count-reserve [] i n w t e = absurd (cc e)
  count-reserve (x ∷ ns) zero n w t e =
      let same : x ≡ n = some-injective _ _ e in
      omega (arith, length-append n.reservations _, ap (λ v. length v.reservations) same)
  count-reserve (x ∷ ns) (suc i) n w t e = omega (arith, count-reserve ns i n w t e)

  AnyEnd : Time → List (SimulatedNode F) → Type 0
  AnyEnd e ns = Any (λ n. Any (λ r. r.end ≡ e) n.reservations) ns

  ended_drops :
      (e : Time) (rs : List (Reservation F))
      → Any (λ r. r.end ≡ e) rs
      → length (running e rs) < length rs
  unfolding keep_if
  ended_drops e [] h = elim h [ ]
  ended_drops e (r ∷ rs) (inl h) =
      let over : after r.end e ≡ false = ap (λ t. after t e) h ∙ ground arith in
      rw (over, keep_if) (omega (arith, length-keep_if-le (λ r. after r.end e) rs))
  ended_drops e (r ∷ rs) (inr h) = ground (arith, ended_drops e rs h)

  live_drops : (e : Time) (ns : List (SimulatedNode F)) → AnyEnd e ns → live e ns < count ns
  unfolding AnyEnd
  live_drops e [] h = elim h [ ]
  live_drops e (n ∷ ns) (inl h) = omega (arith, ended_drops e n.reservations h, live_le e ns)
  live_drops e (n ∷ ns) (inr h) =
      omega (arith, length-keep_if-le (λ r. after r.end e) n.reservations, live_drops e ns h)

  -- The search for the earliest end, once it has an instant after `t`.
  earliest_end-from :
      (t : Time) (ns : List (SimulatedNode F)) (e : Time)
      → pos 0 ≤ℤ t
      → ltb_ℤ t e ≡ true
      → (ltb_ℤ t (earliest_end t ns e) ≡ true)
        × ((earliest_end t ns e ≡ e) ⊎ AnyEnd (earliest_end t ns e) ns)
  unfolding earliest_end AnyEnd
  earliest_end-from t [] e z h = (h, inl refl)
  earliest_end-from t (n ∷ ns) e z h = elim (next_release_after-IsNext n t z) [
    | inl (_, none_left) ↦
        onward (λ e' later. earliest_end-from t ns e' z later) (next_release_after n t)
          (inl none_left) (λ k. absurd (ground (arith, none_left)))
    | inr (later, _, own) ↦
        onward (λ e' later. earliest_end-from t ns e' z later) (next_release_after n t) (inr later)
          (λ k. own)
  ]
    where
      onward :
          ((e' : Time)
            → ltb_ℤ t e' ≡ true
            → (ltb_ℤ t (earliest_end t ns e') ≡ true)
              × ((earliest_end t ns e' ≡ e') ⊎ AnyEnd (earliest_end t ns e') ns))
          → (x : Time) → (x ≡ zero_time) ⊎ (ltb_ℤ t x ≡ true)
          → (ltb_ℤ t x ≡ true → Any (λ r. r.end ≡ x) n.reservations)
          → (ltb_ℤ t (earliest_end t ns (sooner_end x e)) ≡ true)
            × ((earliest_end t ns (sooner_end x e) ≡ e)
                ⊎ AnyEnd (earliest_end t ns (sooner_end x e)) (n ∷ ns))
      onward rest x l own =
          let (later, which) = sooner_keeps t x e l h in
          let (after_t, reached) = rest (sooner_end x e) later in
          (
            after_t,
            elim reached [
              | inr found ↦ inr (inr found)
              | inl same ↦ elim which [
                | inl kept ↦ inl (same ∙ kept)
                | inr (lx, taken) ↦ inr (
                    inl (
                      subst (λ y. Any (λ r. r.end ≡ y) n.reservations) (sym (same ∙ taken))
                        (own lx)))
              ]
            ],
          )

  -- From `e` on, the search over `ns` reaches the end of a reservation after `t`.
  Reached : Time → SimulatedNode F → List (SimulatedNode F) → Time → Type 0
  Reached t n ns e = (ltb_ℤ t (earliest_end t ns e) ≡ true) × AnyEnd (earliest_end t ns e) (n ∷ ns)

  earliest_end-found :
      (t : Time) (ns : List (SimulatedNode F))
      → pos 0 ≤ℤ t
      → AllLive t ns
      → 0 < count ns
      → (ltb_ℤ t (earliest_end t ns zero_time) ≡ true) × AnyEnd (earliest_end t ns zero_time) ns
  unfolding earliest_end AnyEnd Reached
  earliest_end-found t [] z a h = absurd (omega arith)
  earliest_end-found t (n ∷ ns) z a h = elim (next_release_after-IsNext n t z) [
    | inl (over, none_left) ↦
        let empty : length n.reservations ≡ 0 = idle n.reservations over a.0 in
        let (later, found) = earliest_end-found t ns z a.1 (omega (arith, empty)) in
        let skip : sooner_end (next_release_after n t) zero_time ≡ zero_time =
          ap (λ x. sooner_end x zero_time) none_left ∙ sooner_zero in
        subst (Reached t n ns) (sym skip) (later, inr found)
    | inr (later, _, own) ↦
        let taken : sooner_end (next_release_after n t) zero_time ≡ next_release_after n t =
          sooner_first t (next_release_after n t) z later in
        let (after_t, rest) = earliest_end-from t ns (next_release_after n t) z later in
        subst (Reached t n ns) (sym taken) (
          after_t,
          elim rest [
            | inr found ↦ inr found
            | inl same ↦ inl (subst (λ y. Any (λ r. r.end ≡ y) n.reservations) (sym same) own)
          ],
        )
  ]
    where
      idle :
          (rs : List (Reservation F))
          → All (λ r. r.end ≤ℤ t) rs
          → All (λ r. after r.end t ≡ true) rs
          → length rs ≡ 0
      idle [] o l = refl
      idle (r ∷ rs) (o, _) (l, _) = absurd (ground arith)

  -- While reservations are running, the clock moves on to the end of one of them.
  pub live-next_clock :
      (t : Time) (ns : List (SimulatedNode F))
      → pos 0 ≤ℤ t
      → AllLive t ns
      → 0 < count ns
      → live (next_clock t ns) ns < count ns
  unfolding next_clock
  live-next_clock t ns z a h =
      let (later, found) = earliest_end-found t ns z a h in
      rw (not_zero t (earliest_end t ns zero_time) z later, next_clock) (live_drops _ ns found)
