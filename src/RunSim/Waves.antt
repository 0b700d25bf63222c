-- ===== src/RunSim/Waves.antt =====
-- run_sim.go: the submission times that a synthetic schedule gives.
use eco_kube.Prelude.{
  ◌≡◌, refl, sym, ap, subst, ◌∙◌, ℕ, zero, suc, ◌+◌, ◌-◌, ◌/◌, ◌≤◌, ◌<◌, Option, some, List, [],
  ◌∷◌, ◌++◌, length, get_elem?, length-append, arith, inl, inr, ◌⊎◌,
}
use mathlib.Core.Option.{some-injective}
use native.Mathlib.Nat.{div-eq_of_lt, div-eq-sub-div}
use eco_kube.Prelude.Int.{ℤ, ◌+ℤ◌}
use eco_kube.Prelude.Float.{Float64}
use eco_kube.Core.Types.{Time, Workload}
use eco_kube.RunSim.Arrivals.{
  Rng, Pace, sample_arrival_interval, stamp, join_waves, waves, wave_size, positive_pace,
  schedule_start, apply_arrival_schedule,
}

suc_add : (a b : ℕ) → suc a + b ≡ suc (a + b)
suc_add a b = omega arith

-- A place before the n-th, or after that.
cut : (i n : ℕ) → (i < n) ⊎ ((k : ℕ) × (i ≡ n + k))
cut i zero = inr (i, omega arith)
cut zero (suc n) = inl (omega arith)
cut (suc i) (suc n) = elim (cut i n) [
  | inl h ↦ inl (omega arith)
  | inr (k, e) ↦ inr (k, omega arith)
]

div_step : (b k : ℕ) → 0 < b → (b + k) / b ≡ suc (k / b)
div_step b k h =
    let drop : b + k - b ≡ k = omega arith in
    let moved : (b + k - b) / b ≡ k / b = ap (λ n. n / b) drop in
    omega (arith, div-eq-sub-div {m = b} {n = b + k} h (omega arith), moved)

module _ {ℓ} {A : Type ℓ} where
  List-cases : (xs : List A) → (xs ≡ []) ⊎ ((y : A) × (ys : List A) × (xs ≡ y ∷ ys))
  List-cases [] = inl refl
  List-cases (y ∷ ys) = inr (y, ys, refl)

  get_elem?-append_front :
      (xs ys : List A) (i : ℕ) → i < length xs → get_elem? (xs ++ ys) i ≡ get_elem? xs i
  get_elem?-append_front [] ys i h = absurd (omega arith)
  get_elem?-append_front (x ∷ xs) ys zero h = refl
  get_elem?-append_front (x ∷ xs) ys (suc i) h = get_elem?-append_front xs ys i (omega arith)

  get_elem?-append_back :
      (xs ys : List A) (i : ℕ) → get_elem? (xs ++ ys) (length xs + i) ≡ get_elem? ys i
  get_elem?-append_back [] ys i = ap (get_elem? ys) (omega arith)
  get_elem?-append_back (x ∷ xs) ys i =
      ap (get_elem? (x ∷ (xs ++ ys))) (suc_add (length xs) i) ∙ get_elem?-append_back xs ys i

module _ {F : Type 0} where
  abbrev pub at_time : Workload F → Time → Workload F
  at_time w t = record w { submit_time = t }

  stamp_front :
      (t : Time) (n : ℕ) (ws : List (Workload F)) (i : ℕ) (w : Workload F)
      → i < n
      → get_elem? ws i ≡ some w
      → get_elem? (stamp t n ws).0 i ≡ some (at_time w t)
  unfolding stamp
  stamp_front t n [] i w h e = cc e
  stamp_front t zero (x ∷ ws) i w h e = absurd (omega arith)
  stamp_front t (suc n) (x ∷ ws) zero w h e = ap (λ z. some (at_time z t)) (some-injective _ _ e)
  stamp_front t (suc n) (x ∷ ws) (suc i) w h e = stamp_front t n ws i w (omega arith) e

  stamp_rest :
      (t : Time) (n : ℕ) (ws : List (Workload F)) (i : ℕ)
      → get_elem? ws (n + i) ≡ get_elem? (stamp t n ws).1 i
  unfolding stamp
  stamp_rest t n [] i = refl
  stamp_rest t zero (x ∷ ws) i = ap (get_elem? (x ∷ ws)) (omega arith)
  stamp_rest t (suc n) (x ∷ ws) i = ap (get_elem? (x ∷ ws)) (suc_add n i) ∙ stamp_rest t n ws i

  length-stamp :
      (t : Time) (n : ℕ) (ws : List (Workload F))
      → length (stamp t n ws).0 + length (stamp t n ws).1 ≡ length ws
  unfolding stamp
  length-stamp t n [] = refl
  length-stamp t zero (x ∷ ws) = omega arith
  length-stamp t (suc n) (x ∷ ws) = omega (arith, length-stamp t n ws)

  -- A wave is full where others follow.
  stamp_full :
      (t : Time) (n : ℕ) (ws : List (Workload F))
      → 0 < length (stamp t n ws).1
      → length (stamp t n ws).0 ≡ n
  unfolding stamp
  stamp_full t n [] h = absurd (omega arith)
  stamp_full t zero (x ∷ ws) h = refl
  stamp_full t (suc n) (x ∷ ws) h = ap suc (stamp_full t n ws h)

  join_waves-append :
      (front rest : List (Workload F)) (later : Option (List (Workload F)))
      (out : List (Workload F)) (x : Workload F) (xs : List (Workload F))
      → rest ≡ x ∷ xs
      → later ≡ some out
      → join_waves front rest later ≡ some (front ++ out)
  join_waves-append front rest later out x xs e run =
      ap (λ r. join_waves front r later) e ∙ ap (join_waves front (x ∷ xs)) run

module _ {F S : Type 0} ⦃d : Float64 F⦄ (rng : Rng F S) where
  -- The instant of the k-th wave.
  unfoldable pub wave_time : Pace F → ℕ → Time → S → Time
  wave_time p zero current s = current
  wave_time p (suc k) current s =
      let (gap, s') = sample_arrival_interval rng p s in wave_time p k (current +ℤ gap) s'

  -- Of two lists of workloads, the second has the jobs of the first, in waves.
  pub record InWaves (batch : ℕ) (p : Pace F) (current : Time) (s : S) (ws out : List (Workload F))
      : Type 0 where
    pub same_length : length out ≡ length ws
    pub timed :
        (i : ℕ) (w : Workload F)
        → get_elem? ws i ≡ some w
        → get_elem? out i ≡ some (at_time w (wave_time p (i / batch) current s))

  one_wave :
      (batch : ℕ) (p : Pace F) (current : Time) (s : S) (ws : List (Workload F))
      → (stamp current batch ws).1 ≡ []
      → InWaves batch p current s ws (stamp current batch ws).0
  unfolding wave_time
  one_wave batch p current s ws e = record {
    same_length = omega (arith, length-stamp current batch ws, ap length e);
    timed = λ i w q. elim (cut i batch) [
      | inl h ↦ subst (Timed i w) (sym (div-eq_of_lt h)) (stamp_front current batch ws i w h q)
      | inr (k, r) ↦
          absurd
            (cc (q, ap (get_elem? ws) r, stamp_rest current batch ws k, ap (λ l. get_elem? l k) e))
    ];
  }
    where
      Timed : ℕ → Workload F → ℕ → Type 0
      Timed i w n =
          get_elem? (stamp current batch ws).0 i ≡ some (at_time w (wave_time p n current s))

  more_waves :
      (batch : ℕ) (p : Pace F) (current : Time) (s : S) (ws out : List (Workload F))
      → 0 < batch
      → 0 < length (stamp current batch ws).1
      → InWaves batch p
          (current +ℤ (sample_arrival_interval rng p s).0)
          (sample_arrival_interval rng p s).1
          (stamp current batch ws).1
          out
      → InWaves batch p current s ws ((stamp current batch ws).0 ++ out)
  unfolding wave_time
  more_waves batch p current s ws out b full later = record {
    same_length = omega (
      arith,
      length-append (stamp current batch ws).0 out,
      length-stamp current batch ws,
      later.same_length,
    );
    timed = λ i w q. elim (cut i batch) [
      | inl h ↦ subst (Timed i w) (sym (div-eq_of_lt h)) (
          get_elem?-append_front _ out i (omega (arith, stamp_full current batch ws full))
          ∙ stamp_front current batch ws i w h q)
      | inr (k, r) ↦ subst (Timed i w) (sym (ap (λ n. n / batch) r ∙ div_step batch k b)) (
          ap (get_elem? ((stamp current batch ws).0 ++ out))
            (r ∙ ap (λ n. n + k) (sym (stamp_full current batch ws full)))
          ∙ get_elem?-append_back (stamp current batch ws).0 out k
          ∙ later.timed k w (sym (stamp_rest current batch ws k) ∙ ap (get_elem? ws) (sym r) ∙ q))
    ];
  }
    where
      Timed : ℕ → Workload F → ℕ → Type 0
      Timed i w n =
          get_elem? ((stamp current batch ws).0 ++ out) i
          ≡ some (at_time w (wave_time p n current s))

  waves-InWaves :
      (fuel batch : ℕ) (p : Pace F) (current : Time) (s : S) (ws : List (Workload F))
      → 0 < batch
      → length ws ≤ fuel
      → (out : List (Workload F)) × (waves rng fuel batch p current s ws ≡ some out)
        × InWaves batch p current s ws out
  unfolding waves
  waves-InWaves zero batch p current s [] b h =
      ([], refl, record { same_length = refl; timed = λ i w q. absurd (cc q) })
  waves-InWaves zero batch p current s (w ∷ ws) b h = absurd (omega arith)
  waves-InWaves (suc fuel) batch p current s ws b h = elim (List-cases (stamp current batch ws).1) [
    | inl e ↦ ((stamp current batch ws).0, rw (e, waves) refl, one_wave batch p current s ws e)
    | inr (x, xs, e) ↦
        let follow : 0 < length (stamp current batch ws).1 = omega (arith, ap length e) in
        let (out, run, later) =
          waves-InWaves fuel batch p _ _ (stamp current batch ws).1 b
            (omega (arith, length-stamp current batch ws, stamp_full current batch ws follow)) in
        (
          (stamp current batch ws).0 ++ out,
          join_waves-append _ _ _ out x xs e run,
          more_waves batch p current s ws out b follow later,
        )
  ]

  wave_size-positive : (batch : ℤ) → 0 < wave_size batch
  wave_size-positive batch = ground arith

  -- A schedule of a list that is not empty ends. It has the same jobs in the same order, and the i-th
  -- is submitted in wave i divided by the size of a wave, each wave after the first one sampled
  -- interval later than the one before.
  pub apply_arrival_schedule-InWaves :
      (now : Time) (w : Workload F) (ws : List (Workload F)) (start : Time) (batch : ℤ) (p : Pace F)
      (s : S)
      → (out : List (Workload F)) × (apply_arrival_schedule rng now (w ∷ ws) start batch p s
          ≡ some out)
        × InWaves (wave_size batch) (positive_pace p) (schedule_start now start w) s (w ∷ ws) out
  unfolding apply_arrival_schedule
  apply_arrival_schedule-InWaves now w ws start batch p s =
      waves-InWaves (length (w ∷ ws)) (wave_size batch) (positive_pace p)
        (schedule_start now start w) s (w ∷ ws) (wave_size-positive batch) (omega arith)
