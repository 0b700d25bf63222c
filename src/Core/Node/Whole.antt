-- ===== src/Core/Node/Whole.antt =====
-- Nodes whose CPU and memory, and those of their reservations, are whole numbers that float64 holds
-- exactly: what is reserved and released is then neither lost nor gained.
use eco_kube.Prelude.{
  ℕ, ◌+◌, ◌-◌, ◌≤◌, ◌≡◌, refl, ap, sym, ◌∙◌, subst, true, false, List, [], ◌∷◌, ◌++◌, arith,
  Bool-cases, inl, inr, ◌⊎◌, ltb, keep_if,
}
use mathlib.Core.List.{append-nil, append_assoc}
use eco_kube.Prelude.Int.{pos}
use eco_kube.Prelude.Float.{Float64, lt, min, ◌⊕◌, ◌⊖◌}
use eco_kube.Core.Types.{Time, after, Reservation, SimulatedNode}
use eco_kube.Core.Node.{release_loop}
use eco_kube.Core.Node.Release.{running}

abbrev pub whole : {F : Type 0} ⦃d : Float64 F⦄ → ℕ → F
whole ⦃d⦄ n = d.of_int (pos n)

-- The numbers up to `limit`, 2 ^ 53 for float64, are added, subtracted and compared exactly.
pub record IsExact (F : Type 0) ⦃d : Float64 F⦄ (limit : ℕ) : Type 0 where
  pub lt_whole : (a b : ℕ) → a ≤ limit → b ≤ limit → lt (whole {F = F} a) (whole b) ≡ ltb a b
  pub sub_whole : (a b : ℕ) → a ≤ limit → b ≤ a → whole {F = F} a ⊖ whole b ≡ whole (a - b)
  pub add_whole : (a b : ℕ) → a + b ≤ limit → whole {F = F} a ⊕ whole b ≡ whole (a + b)
  pub finite : (a : ℕ) → a ≤ limit → lt d.neg_inf (whole {F = F} a) ≡ true

module _ {F : Type 0} ⦃d : Float64 F⦄ where
  min_numbers :
      (x y : F)
      → lt d.neg_inf x ≡ true
      → lt d.neg_inf y ≡ true
      → lt y x ≡ false
      → (min x y ≡ x) ⊎ ((min x y ≡ y) × (lt x y ≡ false))
  min_numbers x y h k l = ground arith

  -- The reservations hold `a` CPU and `b` memory together.
  abbrev pub Uses : List (Reservation F) → ℕ → ℕ → Type 0
  Uses [] a b = (a ≡ 0) × (b ≡ 0)
  Uses (r ∷ rs) a b =
      (x : ℕ) × (y : ℕ) × (a' : ℕ) × (b' : ℕ) × (r.cpu ≡ whole x)
      × (r.mem ≡ whole y)
      × (a ≡ x + a')
      × (b ≡ y + b')
      × Uses rs a' b'

  -- The node `o` with `a` of its `c` CPU and `b` of its `m` memory in use.
  abbrev pub in_use : SimulatedNode F → ℕ → ℕ → ℕ → ℕ → List (Reservation F) → SimulatedNode F
  in_use o c m a b rs = record o {
    available_cpu = whole (c - a);
    available_memory = whole (m - b);
    reservations = rs;
  }

  pub Uses-append :
      (rs qs : List (Reservation F)) (a b a' b' : ℕ)
      → Uses rs a b
      → Uses qs a' b'
      → Uses (rs ++ qs) (a + a') (b + b')
  Uses-append [] qs a b a' b' (p, q) v =
      subst (λ k. Uses qs k (b + b')) (omega arith) (subst (λ k. Uses qs a' k) (omega arith) v)
  Uses-append (r ∷ rs) qs a b a' b' (x, y, a1, b1, p, q, e, f, u) v =
      (x, y, a1 + a', b1 + b', p, q, omega arith, omega arith, Uses-append rs qs a1 b1 a' b' u v)

  module _ (limit : ℕ) (laws : IsExact F limit) where
    give_back :
        (c a x : ℕ)
        → c ≤ limit
        → x + a ≤ c
        → min (whole (c - (x + a)) ⊕ whole x) (whole {F = F} c) ≡ whole (c - a)
    give_back c a x l h =
        ap (λ v. min v (whole c))
          (laws.add_whole (c - (x + a)) x (omega arith) ∙ ap whole (omega arith))
        ∙ go (
            min_numbers (whole (c - a)) (whole c) (laws.finite (c - a) (omega arith))
              (laws.finite c l) (laws.lt_whole c (c - a) l (omega arith) ∙ ground arith))
      where
        go :
            (min (whole {F = F} (c - a)) (whole c) ≡ whole (c - a))
              ⊎ ((min (whole {F = F} (c - a)) (whole c) ≡ whole c)
                  × (lt (whole {F = F} (c - a)) (whole c) ≡ false))
            → min (whole {F = F} (c - a)) (whole c) ≡ whole (c - a)
        go (inl e) = e
        go (inr (e, f)) =
            let same : ltb (c - a) c ≡ false = sym (laws.lt_whole (c - a) c (omega arith) l) ∙ f in
            let equal : c ≡ c - a = ground (arith, same) in e ∙ ap whole equal

    -- What the loop of `Release` leaves of a node of which `a0` and `b0` stay in use.
    pub release_loop-Uses :
        (t : Time) (o : SimulatedNode F) (c m : ℕ) (rs out old : List (Reservation F))
        (a b a0 b0 : ℕ)
        → o.total_cpu ≡ whole c
        → o.total_memory ≡ whole m
        → c ≤ limit
        → m ≤ limit
        → Uses rs a b
        → Uses out a0 b0
        → a + a0 ≤ c
        → b + b0 ≤ m
        → (a' : ℕ) × (b' : ℕ) × (a' ≤ c)
          × (b' ≤ m)
          × Uses (out ++ running t rs) a' b'
          × (release_loop t rs out (in_use o c m (a + a0) (b + b0) old)
              ≡ in_use o c m a' b' (out ++ running t rs))
    unfolding release_loop keep_if
    release_loop-Uses t o c m [] out old a b a0 b0 tc tm lc lm (p, q) v ha hb =
        let e : a + a0 ≡ a0 = omega arith in
        let f : b + b0 ≡ b0 = omega arith in
        (
          a0,
          b0,
          omega arith,
          omega arith,
          subst (λ l. Uses l a0 b0) (sym (append-nil out)) v,
          rw (e, f, append-nil) refl,
        )
    release_loop-Uses t o c m (r ∷ rs) out old a b a0 b0 tc tm lc lm (x, y, a1, b1, p, q, e, f, u) v
          ha hb =
        elim (Bool-cases (after r.end t)) [
          | inl later ↦
              let kept : Uses (out ++ (r ∷ [])) (a0 + x) (b0 + y) =
                Uses-append out (r ∷ []) a0 b0 x y v
                  (x, y, 0, 0, p, q, omega arith, omega arith, (refl, refl)) in
              let (a', b', la, lb, us, done) =
                release_loop-Uses t o c m rs (out ++ (r ∷ [])) old a1 b1 (a0 + x) (b0 + y) tc tm lc
                  lm u kept (omega arith) (omega arith) in
              let same_a : a + a0 ≡ a1 + (a0 + x) = omega arith in
              let same_b : b + b0 ≡ b1 + (b0 + y) = omega arith in
              let joined : (out ++ (r ∷ [])) ++ running t rs ≡ out ++ (r ∷ running t rs) =
                append_assoc out (r ∷ []) (running t rs) in
              (
                a',
                b',
                la,
                lb,
                rw later (subst (λ l. Uses l a' b') joined us),
                rw (later, same_a, same_b, release_loop) (done ∙ ap (in_use o c m a' b') joined),
              )
          | inr ended ↦
              let (a', b', la, lb, us, done) =
                release_loop-Uses t o c m rs out old a1 b1 a0 b0 tc tm lc lm u v (omega arith)
                  (omega arith) in
              let same_a : a + a0 ≡ x + (a1 + a0) = omega arith in
              let same_b : b + b0 ≡ y + (b1 + b0) = omega arith in
              let back_a : min (whole (c - (a + a0)) ⊕ r.cpu) o.total_cpu ≡ whole (c - (a1 + a0)) =
                rw (p, tc, same_a) (give_back c (a1 + a0) x lc (omega arith)) in
              let back_b : min (whole (m - (b + b0)) ⊕ r.mem) o.total_memory
                  ≡ whole (m - (b1 + b0)) =
                rw (q, tm, same_b) (give_back m (b1 + b0) y lm (omega arith)) in
              (
                a',
                b',
                la,
                lb,
                rw ended us,
                rw (ended, release_loop)
                    (ap (release_loop t rs out) (λ i. record o {
                      available_cpu = back_a i;
                      available_memory = back_b i;
                      reservations = old;
                    })
                      ∙ done),
              )
        ]
