-- ===== src/Core/Node/Release.antt =====
-- Which reservations a release ends, and which instant comes next.
use eco_kube.Prelude.{
  ◌≡◌, refl, sym, subst, ◌∙◌, true, false, List, [], ◌∷◌, ◌++◌, arith, All, Any, keep_if,
  Bool-cases, ◌⊎◌, inl, inr,
}
use mathlib.Core.List.{append-nil, append_assoc}
use eco_kube.Prelude.Int.{pos, ◌≤ℤ◌, ltb_ℤ}
use eco_kube.Prelude.Float.{Float64}
use eco_kube.Core.Types.{Time, after, zero_time, Reservation, SimulatedNode}
use eco_kube.Core.Node.{release, release_loop, next_release_after, next_release_loop, sooner}

sooner_lem :
    (t r e : Time)
    → ltb_ℤ t e ≡ true
    → pos 0 ≤ℤ t
    → let s = sooner t r e in
      (ltb_ℤ t s ≡ true) × (s ≤ℤ e) × ((r ≤ℤ t) ⊎ (s ≤ℤ r)) × ((s ≡ e) ⊎ (r ≡ s))
unfolding sooner
sooner_lem t r e h z = ground arith

sooner_first : (t r : Time) → ltb_ℤ t r ≡ true → sooner t r zero_time ≡ r
unfolding sooner
sooner_first t r h = ground arith

sooner_ended : (t r : Time) → ltb_ℤ t r ≡ false → sooner t r zero_time ≡ zero_time
unfolding sooner
sooner_ended t r h = ground arith

module _ {F : Type 0} ⦃d : Float64 F⦄ where
  abbrev pub running : Time → List (Reservation F) → List (Reservation F)
  running t = keep_if λ r. after r.end t

  release_loop-reservations :
      (t : Time) (rs out : List (Reservation F)) (n : SimulatedNode F)
      → (release_loop t rs out n).reservations ≡ out ++ running t rs
  unfolding release_loop keep_if
  release_loop-reservations t [] out n = ground (arith, append-nil out)
  release_loop-reservations t (r ∷ rs) out n = elim (Bool-cases (after r.end t)) [
    | inl later ↦
        rw (later, release_loop)
          (release_loop-reservations t rs (out ++ (r ∷ [])) n
            ∙ append_assoc out (r ∷ []) (running t rs))
    | inr ended ↦ rw (ended, release_loop) (release_loop-reservations t rs out _)
  ]

  -- A release at `t` keeps exactly the reservations that end after `t`, in their order.
  pub reservations-release :
      (n : SimulatedNode F) (t : Time) → (release n t).reservations ≡ running t n.reservations
  unfolding release
  reservations-release n t = release_loop-reservations t n.reservations [] n

  release_loop-labels :
      (t : Time) (rs out : List (Reservation F)) (n : SimulatedNode F)
      → (release_loop t rs out n).labels ≡ n.labels
  unfolding release_loop
  release_loop-labels t [] out n = refl
  release_loop-labels t (r ∷ rs) out n = elim (Bool-cases (after r.end t)) [
    | inl later ↦ rw (later, release_loop) (release_loop-labels t rs _ n)
    | inr ended ↦ rw (ended, release_loop) (release_loop-labels t rs out _)
  ]

  pub labels-release : (n : SimulatedNode F) (t : Time) → (release n t).labels ≡ n.labels
  unfolding release
  labels-release n t = release_loop-labels t n.reservations [] n

  All-running :
      (t : Time) (rs : List (Reservation F)) → All (λ r. after r.end t ≡ true) (running t rs)
  unfolding keep_if
  All-running t [] = tt
  All-running t (r ∷ rs) = ground (arith, All-running t rs)

  release_loop_idle :
      (t : Time) (rs out : List (Reservation F)) (n : SimulatedNode F)
      → All (λ r. after r.end t ≡ true) rs
      → release_loop t rs out n ≡ record n { reservations = out ++ rs }
  unfolding release_loop
  release_loop_idle t [] out n h = rw append-nil
  release_loop_idle t (r ∷ rs) out n h = rw h.0 (
      release_loop_idle t rs (out ++ (r ∷ [])) n h.1
      ∙ (λ i. record n { reservations = append_assoc out (r ∷ []) rs i }))

  -- Where no reservation has ended a release changes nothing.
  pub release_idle :
      (n : SimulatedNode F) (t : Time)
      → All (λ r. after r.end t ≡ true) n.reservations
      → release n t ≡ n
  unfolding release
  release_idle n t h = release_loop_idle t n.reservations [] n h

  -- So a second release at the same instant changes nothing: no capacity is given back twice.
  release_idem : (n : SimulatedNode F) (t : Time) → release (release n t) t ≡ release n t
  release_idem n t =
      release_idle (release n t) t (rw (reservations-release n t) (All-running t n.reservations))

  -- `e` is the earliest end after `t` among `rs`, or the zero time where all have ended.
  abbrev pub IsNext : Time → List (Reservation F) → Time → Type 0
  IsNext t rs e =
      (All (λ r. r.end ≤ℤ t) rs × (e ≡ zero_time))
      ⊎ ((ltb_ℤ t e ≡ true) × All (λ r. (r.end ≤ℤ t) ⊎ (e ≤ℤ r.end)) rs × Any (λ r. r.end ≡ e) rs)

  abbrev Seen : Time → List (Reservation F) → Time → Time → Type 0
  Seen t rs e s =
      (ltb_ℤ t s ≡ true)
      × (s ≤ℤ e)
      × All (λ r. (r.end ≤ℤ t) ⊎ (s ≤ℤ r.end)) rs
      × ((s ≡ e) ⊎ Any (λ r. r.end ≡ s) rs)

  next_release_loop-Seen :
      (t : Time) (rs : List (Reservation F)) (e : Time)
      → ltb_ℤ t e ≡ true
      → pos 0 ≤ℤ t
      → Seen t rs e (next_release_loop t rs e)
  unfolding next_release_loop
  next_release_loop-Seen t [] e h z = ground arith
  next_release_loop-Seen t (r ∷ rs) e h z =
      let (later, below, kept, from) = sooner_lem t r.end e h z in
      let (later', below', all, from') = next_release_loop-Seen t rs (sooner t r.end e) later z in
      (
        later',
        omega arith,
        (ground arith, all),
        elim from' [
          | inl p ↦ elim from [ inl q ↦ inl (p ∙ q) | inr q ↦ inr (inl (q ∙ sym p)) ]
          | inr a ↦ inr (inr a)
        ],
      )

  next_release_loop-IsNext :
      (t : Time) (rs : List (Reservation F))
      → pos 0 ≤ℤ t
      → IsNext t rs (next_release_loop t rs zero_time)
  unfolding next_release_loop
  next_release_loop-IsNext t [] z = inl (tt, refl)
  next_release_loop-IsNext t (r ∷ rs) z = elim (Bool-cases (after r.end t)) [
    | inl later ↦ step (sym (sooner_first t r.end later)) (
        let (above, below, all, from) = next_release_loop-Seen t rs r.end later z in
        inr (above, (inr below, all), elim from [ inl p ↦ inl (sym p) | inr a ↦ inr a ]))
    | inr ended ↦ step (sym (sooner_ended t r.end ended)) (elim (next_release_loop-IsNext t rs z) [
      | inl (all, p) ↦ inl ((ground arith, all), p)
      | inr (above, all, from) ↦ inr (above, (inl (ground arith), all), inr from)
    ])
  ]
    where
      step :
          {e e' : Time}
          → e ≡ e'
          → IsNext t (r ∷ rs) (next_release_loop t rs e)
          → IsNext t (r ∷ rs) (next_release_loop t rs e')
      step p h = subst (λ x. IsNext t (r ∷ rs) (next_release_loop t rs x)) p h

  -- `NextReleaseAfter` at an instant from the zero time on is the earliest end after it: it lies
  -- after that instant, ends some reservation, and none ends between; or it is the zero time, and
  -- every reservation has ended.
  pub next_release_after-IsNext :
      (n : SimulatedNode F) (t : Time)
      → pos 0 ≤ℤ t
      → IsNext t n.reservations (next_release_after n t)
  unfolding next_release_after
  next_release_after-IsNext n t z = next_release_loop-IsNext t n.reservations z
