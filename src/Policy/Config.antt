-- ===== src/Policy/Config.antt =====
-- internal/policy/types.go: the configuration that decisions are made by.
use pads_v.Common.{Bool, Option}
use pads_v.Common.Int.{ℤ}
use pads_v.Common.Table.{Table}

-- A nil map is `none`.
pub record TunedConfig (F : Type 0) : Type 0 where
  pub gate_weights : Option (Table ℤ)
  pub chaos_penalties : Option (Table F)
  pub threshold_pass : F
  pub threshold_warn : F
  pub threshold_fail : F
  pub hard_fail_gates : Option (Table Bool)
