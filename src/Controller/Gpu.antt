-- ===== src/Controller/Gpu.antt =====
-- controller/scheduler.go: the jobs that jobToCore makes, and the ecokube scheduler where no node
-- accepts one.
use eco_kube.Prelude.{
  ◌≡◌, refl, ap, true, false, not, ◌||◌, none, List, [], ◌∷◌, String, map, All, ok, arith, ◌≢◌,
}
use eco_kube.Prelude.Text.{StringMap, index, equal_fold}
use eco_kube.Prelude.Float.{Float64, IsOrdered, lt}
use eco_kube.Core.Types as Core
use eco_kube.Core.Types.{SimulatedNode}
use eco_kube.Core.Node.{can_accept_job, gpu_ok}
use eco_kube.Core.ArgMin.{Scores, arg_min}
use eco_kube.Core.Policy.{Policy}
use eco_kube.Policies.{CarbonModel}
use eco_kube.Policies.Scored.{refused-sentinel}
use eco_kube.Policies.Offers.{arg_min-sentinel}
use eco_kube.Policies.Ecokube.{weighted_sum, score_mode, eco_score, eco_policy}
use eco_kube.Policies.Ecokube.Metrics.{compute_candidate_metrics}
use eco_kube.Policies.Ecokube.Score.{Config}
use eco_kube.Policies.Ecokube.Choice.{eco_policy-IsOffer}
use eco_kube.Engine.Types.{Job, Deps}
use eco_kube.Controller.{NodeView, ClusterSnapshot, build_cluster_snapshot, job_to_core}
use eco_kube.Controller.Schedulers.{Formats, eco_schedule, eco_decide}

no_gpu : (has : StringMap String) → gpu_ok [] has ≡ true
unfolding gpu_ok index equal_fold
no_gpu has = refl

module _ {F : Type 0} ⦃d : Float64 F⦄ where
  -- For a job of the controller the policies test a node's free CPU and memory alone, whatever the
  -- labels of the pod ask for.
  pub can_accept_job-job_to_core :
      (n : SimulatedNode F) (job : Job F)
      → can_accept_job n (job_to_core job)
        ≡ not (lt n.available_cpu job.cpu || lt n.available_memory job.memory_gb)
  unfolding can_accept_job job_to_core
  can_accept_job-job_to_core n job = rw no_gpu (ground arith)

  decided :
      (fmt : Formats F) (policy : Policy F) (deps : Deps F) (job : Job F) (snap : ClusterSnapshot F)
      (views : List (NodeView F)) (m : Scores F)
      → snap.views ≡ views
      → views ≢ []
      → policy.score (job_to_core job) snap.sim_nodes ≡ ok m
      → arg_min m ≡ ("", true)
      → ((eco_schedule fmt policy deps job snap).error ≡ none)
        × ((eco_schedule fmt policy deps job snap).decision.node_id ≡ "")
  unfolding eco_schedule eco_decide
  decided fmt policy deps job snap [] m v ne e a = absurd (ne refl)
  decided fmt policy deps job snap (_ ∷ _) m v ne e a =
      rw (v, e, a, eco_schedule, eco_decide) (refl, ap (λ p. p.0) a)

  -- The weighted sum returns scores wherever there are nodes.
  weighted_scores :
      (quote : String → String) (model : CarbonModel F) (cfg : Config F) (job : Core.Job F)
      (n : SimulatedNode F) (ns : List (SimulatedNode F))
      → (m : Scores F) × ((eco_policy quote model weighted_sum cfg "ecokube").score job (n ∷ ns)
          ≡ ok m)
  unfolding eco_policy eco_score compute_candidate_metrics score_mode
  weighted_scores quote model cfg job n ns = (_, refl)

  -- Where the infinities lie at the ends of the order: if there are nodes and none accepts the job,
  -- the controller's ecokube scheduler, with the weighted sum as its policy, decides for the node
  -- "" without an error.
  pub eco_schedule_refused :
      IsOrdered F
      → (fmt : Formats F) (quote : String → String) (model : CarbonModel F) (cfg : Config F)
        (deps : Deps F) (job : Job F) (views : List (NodeView F))
      → views ≢ []
      → All (λ n. can_accept_job n (job_to_core job) ≡ false) (map (λ v. v.sim) views)
      → ((eco_schedule fmt
            (eco_policy quote model weighted_sum cfg "ecokube")
            deps
            job
            (build_cluster_snapshot views)).error
          ≡ none)
        × ((eco_schedule fmt
              (eco_policy quote model weighted_sum cfg "ecokube")
              deps
              job
              (build_cluster_snapshot views)).decision.node_id
            ≡ "")
  unfolding build_cluster_snapshot
  eco_schedule_refused laws fmt quote model cfg deps job [] some_view h = absurd (some_view refl)
  eco_schedule_refused laws fmt quote model cfg deps job (v ∷ vs) some_view h =
      let policy = eco_policy quote model weighted_sum cfg "ecokube" in
      let nodes = map (λ x. x.sim) (v ∷ vs) in
      let (m, e) = weighted_scores quote model cfg (job_to_core job) v.sim (map (λ x. x.sim) vs) in
      let o =
        eco_policy-IsOffer quote model weighted_sum cfg "ecokube" (job_to_core job) nodes m e in
      decided fmt policy deps job (build_cluster_snapshot (v ∷ vs)) (v ∷ vs) m refl some_view e
        (rw (refused-sentinel nodes m o h) (arg_min-sentinel laws))
