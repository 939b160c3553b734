-- ===== src/Policy/Log.antt =====
-- internal/policy/wal: the log of policy decisions. A file is the list of its lines, `none` where
-- there is none; whether the system opens, reads or writes it is an argument.
pub mod Recovered
use pads_v.Common.{
  ℕ, ◌≡◌, refl, String, Bool, true, false, Option, none, some, List, [], ◌∷◌, ◌++◌, if◌then◌else◌,
  ◌==◌, Result, ok, err,
}
use pads_v.Evolution.Types.{Codec, IsFaithful}
use pads_v.Policy.Engine.{Status}
use pads_v.Policy.Explain.{PolicyTrace, PolicyExplanation}

pub record PolicyEvent (F : Type 0) : Type 0 where
  pub timestamp : ℕ
  pub decision_id : String
  pub score : F
  pub status : String
  pub trace : PolicyTrace F
  pub explanation : PolicyExplanation F

abbrev pub LogFile : Type 0
LogFile = Option (List String)

pub data LogError : Type 0 where
  open_failed marshal_failed write_failed read_failed : LogError

abbrev lines_of : LogFile → List String
lines_of none = []
lines_of (some lines) = lines

-- NewPolicyWAL
unfoldable pub new_policy_wal : (opens : Bool) → LogFile → LogFile × Option LogError
new_policy_wal true file = (some (lines_of file), none)
new_policy_wal false file = (file, some open_failed)

module _ {F : Type 0} (codec : Codec (PolicyEvent F)) where
  -- Append, which does not create the file
  unfoldable pub append_decision :
      (opens writes : Bool) → LogFile → PolicyEvent F → LogFile × Option LogError
  append_decision opens writes none e = (none, some open_failed)
  append_decision false writes (some lines) e = (some lines, some open_failed)
  append_decision true writes (some lines) e = elim (codec.marshal e) [
    | none ↦ (some lines, some marshal_failed)
    | some line ↦
        if writes then (some (lines ++ line ∷ []), none) else (some lines, some write_failed)
  ]

  -- The loop of ReadAll: lines that are empty or do not parse are skipped.
  unfoldable pub parse_lines : List String → List (PolicyEvent F)
  parse_lines [] = []
  parse_lines (line ∷ lines) =
      let rest = parse_lines lines in
      if line == "" then rest else elim (codec.unmarshal line) [ none ↦ rest | some e ↦ e ∷ rest ]

  unfoldable pub read_all : (reads : Bool) → LogFile → Result LogError (List (PolicyEvent F))
  unfolding parse_lines
  read_all reads none = ok []
  read_all true (some lines) = ok (parse_lines lines)
  read_all false (some lines) = err read_failed

-- LoadTraces
unfoldable pub load_traces : {F : Type 0} → List (PolicyEvent F) → List (PolicyTrace F)
load_traces [] = []
load_traces (e ∷ events) = e.trace ∷ load_traces events
