-- ===== src/Core/ArgMin.antt =====
-- scheduler.go: `Scores` and `ArgMin`. A Go map is iterated in an unspecified order, so the map is
-- the list of its entries in the order of one iteration.
pub mod Order
pub mod Least
pub mod Edge
mod Samples
use eco_kube.Prelude.{Bool, true, false, ◌&&◌, ◌||◌, List, [], ◌∷◌, String, if◌then◌else◌}
use eco_kube.Prelude.Text.{StringMap, str_eq, str_lt}
use eco_kube.Prelude.Float.{Float64, lt, eq}

abbrev pub Scores : Type 0 → Type 0
Scores F = StringMap F

-- `best` and `bestID`.
pub record Best (F : Type 0) : Type 0 where
  pub best : F
  pub best_id : String

module _ {F : Type 0} ⦃d : Float64 F⦄ where
  -- The test of the loop body.
  unfoldable pub improves : String × F → Best F → Bool
  improves (node_id, cost) b =
      lt cost b.best || (eq cost b.best && (str_eq b.best_id "" || str_lt node_id b.best_id))

  unfoldable pub improve : Best F → String × F → Best F
  improve b e = if improves e b then record { best = e.1; best_id = e.0 } else b

  unfoldable pub arg_min_loop : Best F → Scores F → Best F
  arg_min_loop b [] = b
  arg_min_loop b (e ∷ es) = arg_min_loop (improve b e) es

  abbrev pub start : Best F
  start = record { best = d.inf; best_id = "" }

  unfoldable pub arg_min : Scores F → String × Bool
  unfolding arg_min_loop improve
  arg_min [] = ("", false)
  arg_min (e ∷ es) = ((arg_min_loop start (e ∷ es)).best_id, true)
