-- ===== src/Policy/Samples.antt =====
-- A configuration over whole numbers, and a decision.
pub mod Audits
use pads_v.Common.{ℕ, ◌≤◌, ◌≡◌, ◌↔◌, true, false, Option, none, some, List, [], ◌∷◌, length, drop}
use pads_v.Common.Int.{ℤ, pos}
use pads_v.Evolution.Samples.{whole}
use pads_v.Policy.Config.{TunedConfig}
use pads_v.Policy.ConfigStore.{ConfigStore, new_config_store, update, rollback, max_history}
use pads_v.Policy.ConfigStore.Undo.{
  surplus, rollback-update, Change, set, undo, score, apply_all, apply_all_bounded,
}
use pads_v.Policy.Engine.{GateResult, CertificationResult, pass, is_refuted, final_score, evaluate}

abbrev pub config : ℕ → TunedConfig ℤ
config n = record {
  gate_weights = some (("syntax_gate", pos 30) ∷ []);
  chaos_penalties = some (("Hard", pos 15) ∷ []);
  threshold_pass = pos n;
  threshold_warn = pos 70;
  threshold_fail = pos 50;
  hard_fail_gates = some (("execution_gate", true) ∷ []);
}

abbrev pub store : ConfigStore ℤ
store = new_config_store whole (config 90)

rollback-update_example :
    rollback whole (update whole (config 80) store)
    ≡ (record store { history = drop (surplus whole store.history) store.history }, true)
rollback-update_example = rollback-update whole store (config 80)

abbrev changes : List (Change ℤ)
changes = set (config 80) ∷ score (pos 5) ∷ set (config 85) ∷ undo ∷ []

apply_all_bounded_example :
    length (apply_all whole changes (new_config_store whole (config 90))).history ≤ max_history
apply_all_bounded_example = apply_all_bounded whole (config 90) changes

abbrev pub gates : List GateResult
gates = record { reason = ""; name = "syntax_gate"; passed = true; severity = "high" } ∷ []

abbrev pub certificate : Option CertificationResult
certificate = some (record { deterministic = true; wal_hash = "a"; replay_hash = "a" })
