-- ===== src/Controller/Setup.antt =====
-- controller/main.go: the environment of the controller, the scheduler it names, and the calls of
-- the API that bind and annotate a pod.
use Prim.Native.String.{◌++◌ as str_append}
use eco_kube.Prelude.{
  ◌*◌, Option, none, some, List, [], ◌∷◌, String, Result, ok, err, if◌then◌else◌,
}
use eco_kube.Prelude.Int.{ℤ, pos, ltb_ℤ}
use eco_kube.Prelude.Text.{StringMap, put, str_eq}
use eco_kube.Prelude.Float.{Float64, lt, nought}
use eco_kube.Core.Types.{Time, Duration, second, is_zero}
use eco_kube.Policies.{CarbonModel}
use eco_kube.Policies.Carbonscaler.{carbon_policy}
use eco_kube.Policies.Ecokube.{eco_policy, weighted_sum}
use eco_kube.Policies.Ecokube.Score.{Config, default_config}
use eco_kube.Engine.Types.{Deps, Theta, Trace}
use eco_kube.Controller.{normalize_policy}
use eco_kube.Controller.Schedulers.{
  Formats, Scheduler, eco_schedule, carbon_schedule, k8s_schedule, new_carbon_settings,
}

-- `os.Getenv`, "" where the variable is not set.
abbrev pub Env : Type 0
Env = String → String

unfoldable pub env_or : Env → String → String → String
env_or getenv k d = if str_eq (getenv k) "" then d else getenv k

unfoldable pub parse_env_int : (String → Option ℤ) → Env → String → ℤ → ℤ
parse_env_int atoi getenv key def =
    if str_eq (getenv key) "" then def else elim (atoi (getenv key)) [ none ↦ def | some n ↦ n ]

-- What the API answers to a request to bind.
pub data BindError : Type 0 where
  already_exists : BindError
  invalid : BindError
  other_error : String → BindError

-- A pod that is bound already, or a binding that is invalid, counts as bound.
unfoldable pub bind_pod : (String → Option BindError) → String → Option String
bind_pod answer node = if str_eq node "" then some "invalid bind args" else elim (answer node) [
  | none ↦ none
  | some e ↦ elim e [ already_exists ↦ none | invalid ↦ none | other_error text ↦ some text ]
]

module _ {F : Type 0} ⦃d : Float64 F⦄ where
  unfoldable pub parse_env_float : Env → String → F → F
  parse_env_float getenv key def =
      if str_eq (getenv key) ""
      then def
      else elim (d.parse (getenv key)) [ none ↦ def | some f ↦ f ]

  abbrev theta : Theta F
  theta = record {
    theta_e = d.dec 58 2;
    theta_c = d.dec 42 2;
    lookback = pos 0;
    cadence = pos 0;
    horizon = pos (7200 * second);
    alpha = d.dec 95 2;
    egress_cap_mb = d.dec 500 0;
    e_ref = d.dec 10 0;
    c_ref = d.dec 5 0;
    forecast_base_url = "";
  }

  -- `client` stands for the forecast client at a base URL.
  unfoldable pub controller_deps : Env → (String → String → Duration → Result (List F)) → Deps F
  controller_deps getenv client =
      let base = getenv "FORECAST_BASE_URL" in
      record {
        ci = if str_eq base "" then none else some (client base);
        theta = record (theta) { forecast_base_url = base };
        refs = record { e_ref = theta.e_ref; c_ref = theta.c_ref };
        weights = record { e = theta.theta_e; c = theta.theta_c };
      }

  -- A bound that is not positive is left as it is.
  abbrev bound_or : Env → String → F → F
  unfolding parse_env_float
  bound_or getenv key def = let v = parse_env_float getenv key def in if lt nought v then v else def

  unfoldable pub eco_config : Env → Option Time → Config F
  unfolding parse_env_float default_config bound_or
  eco_config getenv now =
      let cfg : Config F = default_config in
      record {
        alpha = parse_env_float getenv "ECOKUBE_ALPHA" (d.dec 72 2);
        beta = parse_env_float getenv "ECOKUBE_BETA" (d.dec 18 2);
        gamma = parse_env_float getenv "ECOKUBE_GAMMA" (d.dec 10 2);
        delta = parse_env_float getenv "ECOKUBE_DELTA" cfg.delta;
        fit_weight = parse_env_float getenv "ECOKUBE_W_FIT" cfg.fit_weight;
        max_runtime = bound_or getenv "ECOKUBE_MAX_RUNTIME" cfg.max_runtime;
        max_data_movement = bound_or getenv "ECOKUBE_MAX_DATA_MOVEMENT" cfg.max_data_movement;
        now = now;
      }

  -- `quoted` is the policy as `%q` prints it, and `lower_case` the policy in lower case.
  unfoldable pub build_scheduler :
      (String → String)
      → Formats F
      → CarbonModel F
      → Env
      → Option Time
      → String
      → String
      → Deps F
      → Result (Scheduler F)
  unfolding normalize_policy eco_config parse_env_float eco_schedule carbon_schedule k8s_schedule
      new_carbon_settings eco_policy carbon_policy
  build_scheduler quote fmt model getenv now lower_case policy deps =
      let name = normalize_policy lower_case policy in
      if str_eq name "ecokube"
      then ok (record {
        name = "ecokube";
        schedule =
            eco_schedule fmt (eco_policy quote model weighted_sum (eco_config getenv now) "ecokube")
              deps;
      })
      else if str_eq name "carbonscaler"
      then ok (record {
        name = "carbonscaler";
        schedule =
            carbon_schedule fmt
              (carbon_policy model (parse_env_float getenv "CARBONSCALER_LAMBDA" (d.dec 55 2)))
              (new_carbon_settings
                (parse_env_float getenv "CARBONSCALER_SHIFT_FRACTION" (d.dec 3 1))
                (parse_env_float getenv "CARBONSCALER_ELASTICITY" (d.dec 10 1))
                (parse_env_float getenv "CARBONSCALER_DEFER_THRESHOLD" (d.dec 6 1)))
              deps;
      })
      else if str_eq name "k8s"
      then ok (record { name = "k8s"; schedule = k8s_schedule fmt deps })
      else err (str_append "unknown scheduler policy " (quote policy))

-- The annotations of a pod that has been bound. `print_time` is `Format(time.RFC3339Nano)`, and
-- `itoa` is `strconv.Itoa`.
unfoldable pub annotations :
    {F : Type 0}
    → (Time → String)
    → (ℤ → String)
    → String
    → String
    → Trace F
    → String
    → StringMap String
unfolding put
annotations print_time itoa node site trace run_id =
    let base =
      ("ci-aware/scheduled", "true")
      ∷ ("ci-aware/node", node)
      ∷ ("ci-aware/scheduler", trace.scheduler)
      ∷ [] in
    let sited = if str_eq site "" then base else put base "ci-aware/site" site in
    let named = if str_eq run_id "" then sited else put sited "ci-aware/run-id" run_id in
    let timed =
      if is_zero trace.queued_at
      then named
      else put named "ci-aware/queued-at" (print_time trace.queued_at) in
    if ltb_ℤ (pos 0) trace.scale then put timed "ci-aware/scale" (itoa trace.scale) else timed
