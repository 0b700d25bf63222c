-- ===== src/Core/Node/Holds.antt =====
-- Nodes that hold whole numbers of what an idle node has: releasing and reserving keep them so, and
-- without reservations they are the idle node again.
use eco_kube.Prelude.{
  ℕ, ◌+◌, ◌-◌, ◌≤◌, ◌≡◌, refl, ap, sym, ◌∙◌, subst, true, false, List, [], ◌∷◌, arith, ltb,
}
use eco_kube.Prelude.Float.{Float64, lt, ◌⊖◌}
use eco_kube.Core.Types.{Time, Workload, Reservation, SimulatedNode}
use eco_kube.Core.Node.{can_accept, reserve, release, release_loop}
use eco_kube.Core.Node.Release.{running}
use eco_kube.Core.Node.Whole.{IsExact, whole, Uses, in_use, Uses-append, release_loop-Uses}

module _ {F : Type 0} ⦃d : Float64 F⦄ where
  -- A node with nothing in use.
  pub record IsIdle (limit : ℕ) (o : SimulatedNode F) : Type 0 where
    pub cpus : ℕ
    pub memory : ℕ
    pub cpu_whole : o.total_cpu ≡ whole cpus
    pub memory_whole : o.total_memory ≡ whole memory
    pub all_cpu : o.available_cpu ≡ whole cpus
    pub all_memory : o.available_memory ≡ whole memory
    pub cpus_small : cpus ≤ limit
    pub memory_small : memory ≤ limit
    pub free : o.reservations ≡ []

  module _ (limit : ℕ) (laws : IsExact F limit) where
    -- The node is the idle node `o` with whole numbers of its CPU and memory in use.
    pub record Holds (o n : SimulatedNode F) : Type 0 where
      pub c : ℕ
      pub m : ℕ
      pub a : ℕ
      pub b : ℕ
      pub cpu_total : o.total_cpu ≡ whole c
      pub memory_total : o.total_memory ≡ whole m
      pub cpu_limit : c ≤ limit
      pub memory_limit : m ≤ limit
      pub cpu_used : a ≤ c
      pub memory_used : b ≤ m
      pub used : Uses n.reservations a b
      pub shape : n ≡ in_use o c m a b n.reservations
      pub idle : o ≡ in_use o c m 0 0 []

    Holds-in_use :
        (o n n' : SimulatedNode F) (h : Holds o n) (a b : ℕ) (rs : List (Reservation F))
        → a ≤ h.c
        → b ≤ h.m
        → Uses rs a b
        → n' ≡ in_use o h.c h.m a b rs
        → Holds o n'
    Holds-in_use o n n' h a b rs la lb us e = subst (Holds o) (sym e) (record {
      c = h.c;
      m = h.m;
      a = a;
      b = b;
      cpu_total = h.cpu_total;
      memory_total = h.memory_total;
      cpu_limit = h.cpu_limit;
      memory_limit = h.memory_limit;
      cpu_used = la;
      memory_used = lb;
      used = us;
      shape = refl;
      idle = h.idle;
    })

    pub release-Holds : (o n : SimulatedNode F) (t : Time) → Holds o n → Holds o (release n t)
    unfolding release
    release-Holds o n t h =
        let (a', b', la, lb, us, done) =
          release_loop-Uses limit laws t o h.c h.m n.reservations [] n.reservations h.a h.b 0 0
            h.cpu_total h.memory_total h.cpu_limit h.memory_limit h.used (refl, refl)
            (let u = h.cpu_used in omega arith) (let u = h.memory_used in omega arith) in
        let same_a : h.a ≡ h.a + 0 = omega arith in
        let same_b : h.b ≡ h.b + 0 = omega arith in
        let start : n ≡ in_use o h.c h.m (h.a + 0) (h.b + 0) n.reservations =
          h.shape ∙ (λ i. in_use o h.c h.m (same_a i) (same_b i) n.reservations) in
        Holds-in_use o n (release n t) h a' b' (running t n.reservations) la lb us
          (ap (release_loop t n.reservations []) start ∙ done)

    -- The workload asks for whole numbers.
    pub record IsWhole (w : Workload F) : Type 0 where
      pub x : ℕ
      pub y : ℕ
      pub cpu_asked : w.cpu ≡ whole x
      pub memory_asked : w.memory ≡ whole y
      pub cpu_small : x ≤ limit
      pub memory_small : y ≤ limit

    enough :
        (c a x : ℕ)
        → c ≤ limit
        → x ≤ limit
        → a ≤ c
        → lt (whole {F = F} (c - a)) (whole x) ≡ false
        → a + x ≤ c
    enough c a x lc lx la e =
        let small : ltb (c - a) x ≡ false = sym (laws.lt_whole (c - a) x (omega arith) lx) ∙ e in
        ground (arith, small)

    take :
        (c a x : ℕ) → c ≤ limit → a + x ≤ c → whole (c - a) ⊖ whole x ≡ whole {F = F} (c - (a + x))
    take c a x l h = laws.sub_whole (c - a) x (omega arith) (omega arith) ∙ ap whole (omega arith)

    accepted_room :
        (n : SimulatedNode F) (w : Workload F)
        → can_accept n w ≡ true
        → (lt n.available_cpu w.cpu ≡ false) × (lt n.available_memory w.memory ≡ false)
    unfolding can_accept
    accepted_room n w h = (ground arith, ground arith)

    pub reserve-Holds :
        (o n : SimulatedNode F) (w : Workload F) (t : Time)
        → IsWhole w
        → can_accept n w ≡ true
        → Holds o n
        → Holds o (reserve n w t)
    unfolding reserve
    reserve-Holds o n w t i accepts h =
        let (cpu_room, memory_room) = accepted_room n w accepts in
        let free_cpu : n.available_cpu ≡ whole (h.c - h.a) = ap (λ v. v.available_cpu) h.shape in
        let free_memory : n.available_memory ≡ whole (h.m - h.b) =
          ap (λ v. v.available_memory) h.shape in
        let fits_cpu : h.a + i.x ≤ h.c = enough h.c h.a i.x h.cpu_limit i.cpu_small h.cpu_used (
          ap (λ v. lt v (whole i.x)) (sym free_cpu)
          ∙ ap (lt n.available_cpu) (sym i.cpu_asked)
          ∙ cpu_room) in
        let fits_memory : h.b + i.y ≤ h.m =
          enough h.m h.b i.y h.memory_limit i.memory_small h.memory_used (
            ap (λ v. lt v (whole i.y)) (sym free_memory)
            ∙ ap (lt n.available_memory) (sym i.memory_asked)
            ∙ memory_room) in
        let left_cpu : n.available_cpu ⊖ w.cpu ≡ whole (h.c - (h.a + i.x)) =
          ap (λ v. v ⊖ w.cpu) free_cpu
          ∙ ap (λ v. whole (h.c - h.a) ⊖ v) i.cpu_asked
          ∙ take h.c h.a i.x h.cpu_limit fits_cpu in
        let left_memory : n.available_memory ⊖ w.memory ≡ whole (h.m - (h.b + i.y)) =
          ap (λ v. v ⊖ w.memory) free_memory
          ∙ ap (λ v. whole (h.m - h.b) ⊖ v) i.memory_asked
          ∙ take h.m h.b i.y h.memory_limit fits_memory in
        let rs = (reserve n w t).reservations in
        let plain : reserve n w t ≡ record n {
          available_cpu = whole (h.c - (h.a + i.x));
          available_memory = whole (h.m - (h.b + i.y));
          reservations = rs;
        } =
          λ k. record n {
            available_cpu = left_cpu k;
            available_memory = left_memory k;
            reservations = rs;
          } in
        Holds-in_use o n (reserve n w t) h (h.a + i.x) (h.b + i.y) rs fits_cpu fits_memory
          (Uses-append n.reservations _ h.a h.b i.x i.y h.used
            (i.x, i.y, 0, 0, i.cpu_asked, i.memory_asked, omega arith, omega arith, (refl, refl)))
          (plain ∙ (λ k. record (h.shape k) {
            available_cpu = whole (h.c - (h.a + i.x));
            available_memory = whole (h.m - (h.b + i.y));
            reservations = rs;
          }))

    none_used :
        (o n : SimulatedNode F) (h : Holds o n) (rs : List (Reservation F))
        → Uses rs h.a h.b
        → n ≡ in_use o h.c h.m h.a h.b rs
        → rs ≡ []
        → n ≡ o
    none_used o n h [] (p, q) e r = e ∙ (λ i. in_use o h.c h.m (p i) (q i) []) ∙ sym h.idle
    none_used o n h (_ ∷ _) us e r = absurd (cc r)

    -- A node without reservations is the idle node again.
    pub idle_again : (o n : SimulatedNode F) → Holds o n → n.reservations ≡ [] → n ≡ o
    idle_again o n h r = none_used o n h n.reservations h.used h.shape r

    pub idle-Holds : (o : SimulatedNode F) → IsIdle limit o → Holds o o
    idle-Holds o h =
        let cpu : o.available_cpu ≡ whole (h.cpus - 0) = h.all_cpu ∙ ap whole (omega arith) in
        let memory : o.available_memory ≡ whole (h.memory - 0) =
          h.all_memory ∙ ap whole (omega arith) in
        record {
          c = h.cpus;
          m = h.memory;
          a = 0;
          b = 0;
          cpu_total = h.cpu_whole;
          memory_total = h.memory_whole;
          cpu_limit = h.cpus_small;
          memory_limit = h.memory_small;
          cpu_used = omega arith;
          memory_used = omega arith;
          used = subst (λ rs. Uses rs 0 0) (sym h.free) (refl, refl);
          shape = λ i. record o {
            available_cpu = cpu i;
            available_memory = memory i;
            reservations = o.reservations;
          };
          idle = λ i. record o {
            available_cpu = cpu i;
            available_memory = memory i;
            reservations = h.free i;
          };
        }
