-- ===== src/Engine/Types.antt =====
-- hetsched/pkg/types: what the engine and the controller hand to each other.
use eco_kube.Prelude.{Bool, false, Option, List, String, Result}
use eco_kube.Prelude.Int.{ℤ, pos}
use eco_kube.Prelude.Text.{StringMap}
use eco_kube.Prelude.Float.{Float64, nought}
use eco_kube.Core.Types.{Time, Duration, zero_time}

pub record Job (F : Type 0) : Type 0 where
  pub id : String
  pub cpu : F
  pub memory_gb : F
  pub deadline : Time
  pub profile : String
  pub tags : StringMap String
  pub estimated_duration : F
  pub submit_time : Time
  pub slack_seconds : F
  pub class : String

pub record SiteInfo (F : Type 0) : Type 0 where
  pub name : String
  pub region : String
  pub pue : F
  pub k : F
  pub carbon_intensity : F

pub record NodeSnapshot (F : Type 0) : Type 0 where
  pub id : String
  pub site : SiteInfo F
  pub available_cpu : F
  pub available_gb : F
  pub labels : StringMap String
  pub metrics : StringMap F

pub record Theta (F : Type 0) : Type 0 where
  pub theta_e : F
  pub theta_c : F
  pub lookback : ℤ
  pub cadence : Duration
  pub horizon : Duration
  pub alpha : F
  pub egress_cap_mb : F
  pub e_ref : F
  pub c_ref : F
  pub forecast_base_url : String

pub record EngineWeights (F : Type 0) : Type 0 where
  pub e : F
  pub c : F

pub record RefScales (F : Type 0) : Type 0 where
  pub e_ref : F
  pub c_ref : F

pub record Decision : Type 0 where
  pub node_id : String
  pub scale : ℤ

pub record Trace (F : Type 0) : Type 0 where
  pub result_type : String
  pub result_id : String
  pub scheduler : String
  pub source : String
  pub run_id : String
  pub job_id : String
  pub site : String
  pub node : String
  pub e_norm : F
  pub c_norm : F
  pub cost : F
  pub theta_e : F
  pub theta_c : F
  pub forecast_used : Bool
  pub fallback : Bool
  pub reject_reason : String
  pub queued_at : Time
  pub started_at : Time
  pub ended_at : Time
  pub scale : ℤ
  pub queue_seconds : F
  pub deferred_for : F

-- A forecast of the carbon intensity: an HTTP service, or none.
pub record Deps (F : Type 0) : Type 0 where
  pub ci : Option (String → Duration → Result (List F))
  pub theta : Theta F
  pub refs : RefScales F
  pub weights : EngineWeights F

abbrev pub no_decision : Decision
no_decision = record { node_id = ""; scale = pos 0 }

module _ {F : Type 0} ⦃d : Float64 F⦄ where
  -- The zero value.
  abbrev pub empty_trace : Trace F
  empty_trace = record {
    result_type = "";
    result_id = "";
    scheduler = "";
    source = "";
    run_id = "";
    job_id = "";
    site = "";
    node = "";
    e_norm = nought;
    c_norm = nought;
    cost = nought;
    theta_e = nought;
    theta_c = nought;
    forecast_used = false;
    fallback = false;
    reject_reason = "";
    queued_at = zero_time;
    started_at = zero_time;
    ended_at = zero_time;
    scale = pos 0;
    queue_seconds = nought;
    deferred_for = nought;
  }
