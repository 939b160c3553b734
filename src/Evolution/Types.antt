-- ===== src/Evolution/Types.antt =====
-- internal/policy/evolution/types.go, event.go and reason.go, with the stores' view of JSON.
use Prim.Native.String.{◌++◌ as str_append}
use pads_v.Common.{ℕ, String, Option, some, Bool, ◌≡◌, if◌then◌else◌}
use pads_v.Common.Float.{Float}
use pads_v.Common.Int.{ℤ}

-- `type Mode string`
abbrev pub Mode : Type 0
Mode = String

abbrev pub mode_bandit : Mode
mode_bandit = "bandit"

abbrev pub mode_stable : Mode
mode_stable = "stable"

abbrev pub mode_locked : Mode
mode_locked = "locked"

pub record Candidate : Type 0 where
  pub score : ℤ

pub record CycleResult (F : Type 0) : Type 0 where
  pub score : ℤ
  pub confidence : F
  pub accepted : Bool

-- BuildReason
unfoldable pub build_reason : (fl : Float) → Bool → ℤ → ℤ → fl.F → String
build_reason fl accepted candidate current stability_delta =
    str_append (if accepted then "✅ Accepté: candidate=" else "❌ Rejeté: candidate=") (
      str_append (fl.show_int candidate) (
        str_append ", current=" (
          str_append (fl.show_int current)
            (str_append ", Δstabilité=" (fl.show_2 stability_delta)))))

pub record Event (F : Type 0) : Type 0 where
  pub sequence : ℕ
  pub candidate_score : ℤ
  pub current_score : ℤ
  pub weight : F
  pub mode : Mode
  pub bandit_seed : ℤ
  pub gate_variance : F
  pub gate_threshold : F
  pub stability_score : F
  pub reason : String

-- encoding/json on one type: `json.Marshal` may refuse a value (a NaN), and what it writes is read
-- back as it was.
pub record Codec (A : Type 0) : Type 0 where
  pub marshal : A → Option String
  pub unmarshal : String → Option A

pub record IsFaithful {A : Type 0} (c : Codec A) : Type 0 where
  pub read_back : (a : A) (line : String) → c.marshal a ≡ some line → c.unmarshal line ≡ some a
