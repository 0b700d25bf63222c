-- ===== src/Controller/Snapshot.antt =====
-- controller/main.go: the snapshot of the cluster, from the pods and nodes that the API lists.
use eco_kube.Prelude.{
  ℕ, zero, suc, ◌*◌, ◌&&◌, ◌||◌, not, Option, none, some, List, [], ◌∷◌, ◌++◌, String, length,
  Result, ok, err, if◌then◌else◌,
}
use eco_kube.Prelude.Int.{ℤ, pos, leb_ℤ, ltb_ℤ, pos_part, ◌+ℤ◌}
use eco_kube.Prelude.Text.{StringMap, put, entry, index, str_eq, str_lt, equal_fold}
use eco_kube.Prelude.Float.{Float64, lt, eq, nought, max, ◌⊕◌, ◌⊖◌}
use eco_kube.Core.Types.{Time, second, is_zero, seconds, sub_time, Reservation, SimulatedNode}
use eco_kube.Core.Class.{normalise_class, class_gpu}
use eco_kube.Core.Node.{next_release_after}
use eco_kube.Controller.{NodeView, ClusterSnapshot, build_cluster_snapshot, cinorm_for_node}
use eco_kube.Controller.Pods.{
  Quantity, ResourceList, Pod, pod_resources, pod_duration, pod_start_time, qty_to_cores,
  qty_to_gib,
}

pub record SiteCfg (F : Type 0) : Type 0 where
  pub pue : F
  pub k : F
  pub region : String
  pub ci : F

-- What the code reads of a node of Kubernetes, and of a pod beside what Pod has.
pub record KubeNode (F : Type 0) : Type 0 where
  pub name : String
  pub labels : StringMap String
  pub allocatable : ResourceList F

pub record ListedPod (F : Type 0) : Type 0 where
  pub phase : String
  pub pod : Pod F

-- By node: the CPU and memory in use, and when they become free.
pub record Usage (F : Type 0) : Type 0 where
  pub used : StringMap (F × F)
  pub reservations : StringMap (List (Reservation F))

-- The controller's site table, and the greatest number of nodes it looks at.
pub record Sites (F : Type 0) : Type 0 where
  pub sites : StringMap (SiteCfg F)
  pub node_cap : ℤ

-- The class of a node by its labels.
unfoldable pub device_class_of : StringMap String → String
unfolding normalise_class index equal_fold
device_class_of labels =
    let own = normalise_class (index labels "ciw/device_class") in
    let shared = normalise_class (index labels "device_class") in
    if not (str_eq own "")
    then own
    else if not (str_eq shared "")
    then shared
    else if equal_fold (index labels "gpu") "true"
    then class_gpu
    else ""

module _ {F : Type 0} where
  abbrev pub or_empty : Option (List (Reservation F)) → List (Reservation F)
  or_empty none = []
  or_empty (some rs) = rs

  -- `sort.SliceStable` by the identifier.
  unfoldable pub insert_view : NodeView F → List (NodeView F) → List (NodeView F)
  insert_view v [] = v ∷ []
  insert_view v (x ∷ xs) =
      let rest = insert_view v xs in
      if str_lt x.snapshot.id v.snapshot.id then x ∷ rest else v ∷ x ∷ xs

  unfoldable pub sort_views : List (NodeView F) → List (NodeView F)
  unfolding insert_view
  sort_views [] = []
  sort_views (v ∷ vs) = insert_view v (sort_views vs)

  unfoldable pub first_views : ℕ → List (NodeView F) → List (NodeView F)
  first_views zero vs = []
  first_views (suc n) [] = []
  first_views (suc n) (v ∷ vs) = v ∷ first_views n vs

  unfoldable pub cap_views : ℤ → List (NodeView F) → List (NodeView F)
  unfolding sort_views first_views
  cap_views cap views =
      if ltb_ℤ (pos 0) cap && ltb_ℤ cap (pos (length views))
      then first_views (pos_part cap) (sort_views views)
      else views

module _ {F : Type 0} ⦃d : Float64 F⦄ where
  unfoldable pub queue_seconds_for_node : SimulatedNode F → Time → F
  unfolding next_release_after sub_time
  queue_seconds_for_node n now =
      let next = next_release_after n now in
      let wait = seconds (sub_time next now) in
      if is_zero next then nought else if lt wait nought then nought else wait

  -- A pod that has no end yet holds its resources for a minute.
  unfoldable pub pod_reservation : Pod F → F × F → Reservation F
  unfolding pod_duration pod_start_time ◌+ℤ◌
  pod_reservation pod (cpu, mem) =
      let dur = pod_duration pod in
      let start = pod_start_time pod in
      record {
        end =
            (if is_zero start then pod.created else start)
            +ℤ (if leb_ℤ dur (pos 0) then pos (60 * second) else dur);
        cpu = cpu;
        mem = mem;
      }

  abbrev pub or_unused : Option (F × F) → F × F
  or_unused none = (nought, nought)
  or_unused (some u) = u

  -- The resources of a pod that is on a node, has not ended and asks for something.
  unfoldable pub held : ListedPod F → Option (F × F)
  unfolding pod_resources
  held p =
      let (cpu, mem) = pod_resources p.pod in
      if str_eq p.pod.node_name ""
      then none
      else if str_eq p.phase "Succeeded" || str_eq p.phase "Failed"
      then none
      else if eq cpu nought && eq mem nought
      then none
      else some (cpu, mem)

  unfoldable pub use_pod : Usage F → ListedPod F → Usage F
  unfolding held put entry pod_reservation
  use_pod u p =
      let node = p.pod.node_name in
      elim (held p) [
        | none ↦ u
        | some (cpu, mem) ↦
            let (cpu', mem') = or_unused (entry u.used node) in
            record {
              used = put u.used node (cpu' ⊕ cpu, mem' ⊕ mem);
              reservations =
                  put u.reservations node (
                    or_empty (entry u.reservations node)
                    ++ (pod_reservation p.pod (cpu, mem) ∷ []));
            }
      ]

  unfoldable pub use_pods : Usage F → List (ListedPod F) → Usage F
  unfolding use_pod
  use_pods u [] = u
  use_pods u (p ∷ ps) = use_pods (use_pod u p) ps

  -- A quantity that is missing is zero.
  abbrev pub amount : (Quantity F → F) → Option (Quantity F) → F
  amount f o = elim o [ none ↦ nought | some q ↦ f q ]

  abbrev with_power : StringMap String → StringMap F → StringMap F
  unfolding entry put
  with_power labels metrics = elim (entry labels "power_w_mean") [
    | none ↦ metrics
    | some v ↦ elim (d.parse v) [ none ↦ metrics | some f ↦ put metrics "power_w_mean" f ]
  ]

  -- The node as the simulator's policies see it.
  unfoldable pub sim_node : SiteCfg F → Usage F → KubeNode F → SimulatedNode F
  unfolding qty_to_cores qty_to_gib index entry device_class_of
  sim_node cfg usage n =
      let site_id = index n.labels "site" in
      let total_cpu = amount qty_to_cores n.allocatable.cpu in
      let total_memory = amount qty_to_gib n.allocatable.memory in
      let (cpu, mem) = or_unused (entry usage.used n.name) in
      record {
        id = n.name;
        name = n.name;
        total_cpu = total_cpu;
        total_memory = total_memory;
        available_cpu = max nought (total_cpu ⊖ cpu);
        available_memory = max nought (total_memory ⊖ mem);
        carbon_intensity = cfg.ci;
        labels = n.labels;
        metadata = [];
        device_class = device_class_of n.labels;
        reservations = or_empty (entry usage.reservations n.name);
        site_id = site_id;
        site = some (record {
          id = site_id;
          pue = cfg.pue;
          k = cfg.k;
          ci_region = cfg.region;
          carbon_intensity = cfg.ci;
        });
      }

  -- `intensity` is `EstimateCarbonIntensity`.
  unfoldable pub node_view :
      (SimulatedNode F → Time → F) → Time → SiteCfg F → Usage F → KubeNode F → NodeView F
  unfolding sim_node queue_seconds_for_node cinorm_for_node put with_power
  node_view intensity now cfg usage n =
      let sim = sim_node cfg usage n in
      let queue = queue_seconds_for_node sim now in
      let ci_norm = cinorm_for_node sim (intensity sim now) in
      record {
        snapshot = record {
          id = n.name;
          site = record {
            name = sim.site_id;
            region = cfg.region;
            pue = cfg.pue;
            k = cfg.k;
            carbon_intensity = cfg.ci;
          };
          available_cpu = sim.available_cpu;
          available_gb = sim.available_memory;
          labels = n.labels;
          metrics = with_power n.labels (("queue_seconds", queue) ∷ ("ci_norm", ci_norm) ∷ []);
        };
        sim = sim;
        queue_seconds = queue;
        ci_norm = ci_norm;
      }

  -- A node at a site that the table does not have is left out.
  unfoldable pub views_of :
      (SimulatedNode F → Time → F)
      → Time
      → StringMap (SiteCfg F)
      → Usage F
      → List (KubeNode F)
      → List (NodeView F)
  unfolding node_view entry index
  views_of intensity now sites usage [] = []
  views_of intensity now sites usage (n ∷ ns) =
      let rest = views_of intensity now sites usage ns in
      elim (entry sites (index n.labels "site")) [
        | none ↦ rest
        | some cfg ↦ node_view intensity now cfg usage n ∷ rest
      ]

  -- The lists as the API returns them, the pods first.
  unfoldable pub snapshot :
      (SimulatedNode F → Time → F)
      → Time
      → Sites F
      → Result (List (ListedPod F))
      → Result (List (KubeNode F))
      → Result (ClusterSnapshot F)
  unfolding use_pods views_of cap_views build_cluster_snapshot
  snapshot intensity now table (err e) nodes = err e
  snapshot intensity now table (ok pods) (err e) = err e
  snapshot intensity now table (ok pods) (ok nodes) =
      let usage : Usage F = use_pods (record { used = []; reservations = [] }) pods in
      ok (
        build_cluster_snapshot
          (cap_views table.node_cap (views_of intensity now table.sites usage nodes)))
