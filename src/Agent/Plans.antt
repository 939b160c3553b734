-- ===== src/Agent/Plans.antt =====
-- internal/agent/agent.go, action_kind.go and utils.go: plans and how they are written as text.
pub mod Digits
use Prim.Native.String.{◌++◌ as str_append, slice}
use pads_v.Common.{
  ℕ, zero, suc, ◌+◌, ◌*◌, ◌/◌, ◌%◌, String, Bool, true, false, ◌||◌, Option, none, some, List, [],
  ◌∷◌, if◌then◌else◌, eqb, ◌==◌,
}
use pads_v.Common.Int.{ℤ, pos, negsuc}

-- The kinds are texts: a plan can hold one that is not valid.
abbrev pub ActionKind : Type 0
ActionKind = String

abbrev pub action_log : ActionKind
action_log = "log"

abbrev pub action_write_file : ActionKind
action_write_file = "write_file"

abbrev pub action_run_command : ActionKind
action_run_command = "run_command"

abbrev pub task_fix_broken : String
task_fix_broken = "fix_broken"

unfoldable pub is_valid_action_kind : ActionKind → Bool
is_valid_action_kind k = (k == action_log) || (k == action_write_file) || (k == action_run_command)

pub record Task : Type 0 where
  pub kind : String
  pub target : String
  pub goal : String

pub record Action : Type 0 where
  pub kind : ActionKind
  pub target : String
  pub patch : String
  pub command : List String

abbrev pub Plan : Type 0
Plan = List Action

-- The loop of itoa, which writes digits from the end of a buffer of 20 bytes; `none` is the panic
-- where the buffer is full.
unfoldable pub digits_from : ℕ → ℕ → List ℕ → Option (List ℕ)
digits_from zero n digits = if eqb n 0 then some digits else none
digits_from (suc room) n digits =
    let rest = digits_from room (n / 10) (n % 10 ∷ digits) in if eqb n 0 then some digits else rest

-- byte('0' + d)
abbrev pub digit_text : ℕ → String
digit_text d = slice "0123456789" d (suc d)

unfoldable pub text_of : List ℕ → String
text_of [] = ""
text_of (d ∷ digits) = str_append (digit_text d) (text_of digits)

abbrev pub buffer_size : ℕ
buffer_size = 20

unfoldable pub digits_of : ℤ → Option (List ℕ)
digits_of (pos n) = if eqb n 0 then some (0 ∷ []) else digits_from buffer_size n []
digits_of (negsuc n) = some []

unfoldable pub itoa : ℤ → Option String
unfolding digits_of digits_from text_of
itoa i = elim (digits_of i) [ none ↦ none | some digits ↦ some (text_of digits) ]

abbrev or_empty : Option String → String
or_empty none = ""
or_empty (some text) = text

-- The index of a step is far below the limit of itoa.
unfoldable pub format_step : ℕ → Action → String
unfolding itoa
format_step i step = str_append "step" (
    str_append (or_empty (itoa (pos i)))
      (str_append ": " (str_append step.kind (str_append " -> " step.target))))

unfoldable pub format_steps : ℕ → Plan → List String
unfolding format_step
format_steps i [] = []
format_steps i (step ∷ steps) = format_step i step ∷ format_steps (suc i) steps

-- strings.Join with "; "
unfoldable pub join_parts : List String → String
join_parts [] = ""
join_parts (part ∷ []) = part
join_parts (part ∷ next ∷ parts) = str_append part (str_append "; " (join_parts (next ∷ parts)))

unfoldable pub serialize_plan : Plan → String
unfolding format_steps join_parts
serialize_plan plan = join_parts (format_steps 0 plan)
