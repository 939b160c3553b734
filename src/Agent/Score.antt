-- ===== src/Agent/Score.antt =====
-- internal/agent/utils.go: the score of a run in the sandbox. The error of a run is its text.
use text.Mathlib.Text.{find?}
use native.Mathlib.Nat.{div-lt_iff_lt-mul}
use pads_v.Common.{
  ℕ, ◌+◌, ◌*◌, ◌/◌, ◌≤◌, ◌<◌, String, Bool, true, false, not, ◌&&◌, Option, none, some, arith,
  if◌then◌else◌, ltb, Bool-cases, inl, inr,
}

pub record SandboxResult : Type 0 where
  pub passed : Bool
  pub tests_passed : ℕ
  pub tests_failed : ℕ
  pub build_output : String
  pub test_output : String
  pub error : Option String
  pub sandbox_path : String

abbrev is_found : Option ℕ → Bool
is_found none = false
is_found (some _) = true

-- strings.Contains
abbrev pub contains : String → String → Bool
contains s t = is_found (find? s t)

abbrev pub is_nil : Option String → Bool
is_nil none = true
is_nil (some _) = false

unfoldable pub build_points : SandboxResult → ℕ
build_points res = if is_nil res.error && not (contains res.build_output "error") then 30 else 0

unfoldable pub test_points : SandboxResult → ℕ
test_points res =
    let total = res.tests_passed + res.tests_failed in
    let share = if ltb 0 total then 50 * res.tests_passed / total else 0 in
    if res.passed then 50 else if ltb 0 res.tests_passed then share else 0

unfoldable pub warning_points : SandboxResult → ℕ
warning_points res =
    if not (contains res.build_output "warning") && not (contains res.test_output "warning")
    then 20
    else 0

unfoldable pub compute_sandbox_score : SandboxResult → ℕ
unfolding build_points test_points warning_points
compute_sandbox_score res = build_points res + test_points res + warning_points res

share_bound : (passed failed : ℕ) → 0 < passed + failed → 50 * passed / (passed + failed) ≤ 50
share_bound passed failed some_ran =
    let below : 50 * passed / (passed + failed) < 51 =
      (div-lt_iff_lt-mul {k = passed + failed} {x = 50 * passed} {y = 51} some_ran).1
        (omega arith) in
    omega (arith, below)

test_points_bound : (res : SandboxResult) → test_points res ≤ 50
unfolding test_points
test_points_bound res = elim (Bool-cases (ltb 0 (res.tests_passed + res.tests_failed))) [
  | inl e ↦ ground (arith, share_bound res.tests_passed res.tests_failed (ground arith))
  | inr e ↦ ground arith
]

-- The score of any run in the sandbox is 100 at most.
pub compute_sandbox_score_bound : (res : SandboxResult) → compute_sandbox_score res ≤ 100
unfolding compute_sandbox_score build_points warning_points
compute_sandbox_score_bound res = ground (arith, test_points_bound res)
