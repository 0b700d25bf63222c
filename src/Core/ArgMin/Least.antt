-- ===== src/Core/ArgMin/Least.antt =====
-- Which node ArgMin chooses.
use eco_kube.Prelude.{
  ◌≡◌, refl, subst, ap, ◌∙◌, true, false, [], ◌∷◌, String, arith, All, Any, Any-map_of, ◌≢◌, ◌⊎◌,
  inl, inr, Bool-cases,
}
use eco_kube.Prelude.Text.{str_lt, eq_iff, eq_refl, str_lt_irrefl, str_lt_trans, str_lt_total}
use eco_kube.Prelude.Float.{Float64, lt, IsOrdered, eq, is_num}
use eco_kube.Core.ArgMin.Order.{filled, arg_min_lem}
use eco_kube.Core.ArgMin.{Scores, Best, improves, improve, arg_min_loop, start, arg_min}

module _ {F : Type 0} ⦃d : Float64 F⦄ where
  -- No entry of `es` is cheaper than `b`, and none is as cheap with a smaller key. A cost that is
  -- NaN compares with nothing.
  abbrev pub IsLeast : Best F → Scores F → Type 0
  IsLeast b es =
      All (λ e. (lt e.1 b.best ≡ false) × (eq e.1 b.best ≡ true → str_lt e.0 b.best_id ≡ false)) es

  NotWorse : Best F → Best F → Type 0
  NotWorse s b =
      (is_num s.best ≡ true)
      × (lt s.best b.best ≡ false)
      × (eq s.best b.best ≡ true → (s.best_id ≡ "") ⊎ (str_lt s.best_id b.best_id ≡ false))

  improve_num :
      (s : Best F) (e : String × F) → is_num s.best ≡ true → is_num (improve s e).best ≡ true
  unfolding improve improves
  improve_num s e h = ground arith

  improve-NotWorse :
      (s : Best F) (e : String × F) (b : Best F)
      → e.0 ≢ ""
      → is_num s.best ≡ true
      → NotWorse (improve s e) b
      → NotWorse s b
  unfolding improve improves NotWorse
  improve-NotWorse s e b h n k = ground (
    arith,
    eq_iff s.best_id "",
    eq_iff e.0 "",
    str_lt_trans s.best_id e.0 b.best_id,
    str_lt_total s.best_id e.0,
    str_lt_trans e.0 s.best_id b.best_id,
  )

  improve_least :
      (s : Best F) (e : String × F) (b : Best F)
      → e.0 ≢ ""
      → is_num s.best ≡ true
      → NotWorse (improve s e) b
      → (lt e.1 b.best ≡ false) × (eq e.1 b.best ≡ true → str_lt e.0 b.best_id ≡ false)
  unfolding improve improves NotWorse
  improve_least s e b h n k = ground (
    arith,
    eq_iff s.best_id "",
    eq_iff e.0 "",
    str_lt_trans s.best_id e.0 b.best_id,
    str_lt_trans e.0 s.best_id b.best_id,
    str_lt_total s.best_id e.0,
  )

  NotWorse-refl : (b : Best F) → is_num b.best ≡ true → NotWorse b b
  unfolding NotWorse
  NotWorse-refl b h = ground (arith, str_lt_irrefl b.best_id)

  arg_min_loop-IsLeast :
      (s : Best F) (es : Scores F)
      → is_num s.best ≡ true
      → All (λ e. e.0 ≢ "") es
      → NotWorse s (arg_min_loop s es) × IsLeast (arg_min_loop s es) es
  unfolding arg_min_loop
  arg_min_loop-IsLeast s [] n h = (NotWorse-refl s n, tt)
  arg_min_loop-IsLeast s (e ∷ es) n (h, hs) =
      let b = arg_min_loop (improve s e) es in
      let (now, rest) = arg_min_loop-IsLeast (improve s e) es (improve_num s e n) hs in
      (improve-NotWorse s e b h n now, (improve_least s e b h n now, rest))

  -- The entry that a loop ends with is one of the map's, or the one it began with.
  arg_min_loop_from :
      (s : Best F) (es : Scores F)
      → (arg_min_loop s es ≡ s)
        ⊎ Any (λ e. arg_min_loop s es ≡ record { best = e.1; best_id = e.0 }) es
  unfolding arg_min_loop improve
  arg_min_loop_from s [] = inl refl
  arg_min_loop_from s (e ∷ es) = elim (arg_min_loop_from (improve s e) es) [
    | inl same ↦ elim (Bool-cases (improves e s)) [
      | inl better ↦ inr (inl (same ∙ rw (better, improve)))
      | inr worse ↦ inl (same ∙ rw (worse, improve))
    ]
    | inr other ↦ inr (inr other)
  ]

  arg_min_loop_num :
      (s : Best F) (es : Scores F) → is_num s.best ≡ true → is_num (arg_min_loop s es).best ≡ true
  unfolding arg_min_loop
  arg_min_loop_num s [] h = h
  arg_min_loop_num s (e ∷ es) h = arg_min_loop_num (improve s e) es (improve_num s e h)

  filled_of_Any : (P : String × F → Type 0) (es : Scores F) → Any P es → filled es ≡ true
  filled_of_Any P [] a = elim a [ ]
  filled_of_Any P (e ∷ es) a = refl

  settled :
      (s : Best F) (es : Scores F)
      → s.best_id ≢ ""
      → All (λ e. e.0 ≢ "") es
      → (arg_min_loop s es).best_id ≢ ""
  unfolding arg_min_loop improve
  settled s [] n h = n
  settled s (e ∷ es) n (h, hs) = settled (improve s e) es (ground arith) hs

  module _ (laws : IsOrdered F) where
    open laws use {inf_max, lt_inf}

    starts : (e : String × F) → e.0 ≢ "" → is_num e.1 ≡ true → (improve start e).best_id ≢ ""
    unfolding improve improves
    starts e h n = ground (arith, inf_max e.1, eq_refl "")

    settles :
        (es : Scores F)
        → All (λ e. e.0 ≢ "") es
        → Any (λ e. is_num e.1 ≡ true) es
        → (arg_min_loop start es).best_id ≢ ""
    unfolding arg_min_loop improve
    settles [] h a = elim a [ ]
    settles (e ∷ es) (h, hs) (inl n) = settled (improve start e) es (starts e h n) hs
    settles (e ∷ es) (h, hs) (inr n) = elim (Bool-cases (improves e start)) [
      | inl better ↦ rw (better, improve, arg_min_loop) (settled _ es h hs)
      | inr worse ↦ rw (worse, improve, arg_min_loop) (settles es hs n)
    ]

    chosen :
        (es : Scores F) (e : String × F)
        → All (λ x. x.0 ≢ "") es
        → filled es ≡ true
        → arg_min_loop start es ≡ record { best = e.1; best_id = e.0 }
        → (arg_min es ≡ (e.0, true))
          × (is_num e.1 ≡ true)
          × IsLeast (record { best = e.1; best_id = e.0 }) es
    chosen es e h f p = (
      cc (arg_min_lem es),
      rw (ap (λ b. is_num b.best) p) at
          (arg_min_loop_num start es (ground (arith, inf_max d.inf, lt_inf))),
      subst (λ b. IsLeast b es) p (arg_min_loop-IsLeast start es (ground (arith, lt_inf)) h).1,
    )

    -- Where the infinities lie at the ends of the order: for a score map with no key "" and some
    -- cost that is not NaN, ArgMin chooses a node with a least cost, and among those of that cost
    -- the one whose key comes first.
    pub arg_min-IsLeast :
        (es : Scores F)
        → All (λ e. e.0 ≢ "") es
        → Any (λ e. is_num e.1 ≡ true) es
        → Any
            (λ e.
              (arg_min es ≡ (e.0, true))
              × (is_num e.1 ≡ true)
              × IsLeast (record { best = e.1; best_id = e.0 }) es)
            es
    arg_min-IsLeast es h a = elim (arg_min_loop_from start es) [
      | inl same ↦ absurd (settles es h a (ap (λ b. b.best_id) same))
      | inr found ↦ Any-map_of _ _ (λ e p. chosen es e h (filled_of_Any _ es a) p) es found
    ]
