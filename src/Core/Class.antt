-- ===== src/Core/Class.antt =====
-- class.go: the aliases of the accelerator classes.
use eco_kube.Prelude.{List, [], ◌∷◌, ℕ, String, if◌then◌else◌}
use eco_kube.Prelude.Text.{codes, to_lower, trim_space, one_of}

abbrev pub class_cpu : String
class_cpu = "cpu"

abbrev pub class_gpu : String
class_gpu = "gpu"

abbrev pub class_mem : String
class_mem = "mem"

unfoldable pub class_of : List ℕ → String
unfolding one_of
class_of v =
    if one_of v ("cpu" ∷ "general" ∷ "standard" ∷ "compute" ∷ [])
    then class_cpu
    else if one_of v ("gpu" ∷ "accelerator" ∷ [])
    then class_gpu
    else if one_of v ("mem" ∷ "memory" ∷ "memory-optimized" ∷ "memory_optimized" ∷ [])
    then class_mem
    else ""

unfoldable pub normalise_class : String → String
unfolding class_of to_lower trim_space
normalise_class value = class_of (trim_space (to_lower (codes value)))
