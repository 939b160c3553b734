-- ===== src/Ci/Causal/Patch/Repair.antt =====
-- The actions and the causes for located divergences (patch_engine.go and root_cause.go of
-- internal/ci/causal).
use mathlib.Core.Option.{some-injective}
use Prim.Native.String.{◌++◌}
use pads_v.Common.{
  ℕ, suc, ◌≡◌, refl, sym, ap, ◌∙◌, subst, ◌≢◌, String, true, false, Option, none, some, List, [],
  ◌∷◌, arith, inl, inr, ◌⊎◌, ◌↔◌, eq_iff, ok, err, Option-cases, Bool-cases,
}
use pads_v.Common.Table.{lookup}
use pads_v.Ci.Jobs.{Job, Jobs}
use pads_v.Ci.Causal.{CausalEvent}
use pads_v.Ci.Causal.Divergence.{
  DiffType, no_diff, cache_hit, ordering, artifact, missing, extra, DivergenceNode, CausalDiff,
  diverge, locate_from, locate_divergence, differ, find_from, find_first_divergent_node, found_at,
}
use pads_v.Ci.Causal.Patch.{
  PatchAction, describe, step_not_found, action_of, action_for, generate_patch, has_step,
  apply_patch, analyze_cause,
}

diverge_type : (o r : CausalEvent) (d : DiffType × String) → diverge o r ≡ some d → d.0 ≢ no_diff
unfolding diverge
diverge_type o r d h = λ e. ground arith

locate_from_type :
    (i : ℕ) (oracle replay : List CausalEvent) (node : DivergenceNode)
    → locate_from i oracle replay ≡ some node
    → node.type ≢ no_diff
unfolding locate_from
locate_from_type i [] [] node h = absurd (cc)
locate_from_type i [] (r ∷ rs) node h = λ e. ground arith
locate_from_type i (o ∷ os) [] node h = λ e. ground arith
locate_from_type i (o ∷ os) (r ∷ rs) node h = elim (Option-cases (diverge o r)) [
  | inl e ↦ locate_from_type (suc i) os rs node (ground arith)
  | inr (d, e) ↦ let proper = diverge_type o r d e in λ none_type. ground (arith, proper)
]

-- The jobs have the step that an action names.
abbrev pub HasStep : Jobs → PatchAction → Type 0
HasStep jobs action =
    (job : Job) × (lookup action.job_id jobs ≡ some job)
    × (has_step action.step_id job.steps ≡ true)

-- How an action of a known kind is applied.
abbrev pub Applied : Jobs → PatchAction → Type 0
Applied jobs action =
    (apply_patch jobs (some action) ≡ ok tt)
    ⊎ ((apply_patch jobs (some action) ≡ err (step_not_found action.step_id action.job_id))
        × (action.kind ≡ "force_recompute")
        × (HasStep jobs action → ⊥))

-- What is left to do about a divergence is done, or it is a recomputation of a step that no job has.
abbrev pub Repairs : Jobs → Option DivergenceNode → Type 0
Repairs jobs node =
    (action : PatchAction) × (generate_patch node ≡ ok (some action)) × Applied jobs action

recompute-Applied :
    (jobs : Jobs) (job_id step_id detail : String)
    → Applied jobs (action_of "force_recompute" job_id step_id detail)
unfolding apply_patch
recompute-Applied jobs job_id step_id detail = elim (Option-cases (lookup job_id jobs)) [
  | inl missed ↦ inr (ground arith, refl, λ has. let (job, found, step) = has in cc)
  | inr (job, found) ↦ elim (Bool-cases (has_step step_id job.steps)) [
    | inl e ↦ inl (ground arith)
    | inr e ↦ inr (
      ground arith,
      refl,
      λ has.
          let (other, found', step) = has in
          let same : job ≡ other = some-injective job other (sym found ∙ found') in
          let no_step = subst (λ j. has_step step_id j.steps ≡ false) same e in cc,
    )
  ]
]

generated :
    (jobs : Jobs) (node : DivergenceNode) (action : PatchAction)
    → action_for node.type node ≡ some action
    → Applied jobs action
    → Repairs jobs (some node)
unfolding generate_patch
generated jobs node action made applied = (action, ground arith, applied)

action_for-Applied :
    (jobs : Jobs) (node : DivergenceNode) (t : DiffType)
    → t ≢ no_diff
    → (action : PatchAction) × (action_for t node ≡ some action) × Applied jobs action
unfolding apply_patch
action_for-Applied jobs node no_diff h = absurd (h refl)
action_for-Applied jobs node cache_hit h = (_, refl, inl refl)
action_for-Applied jobs node ordering h = (_, refl, inl refl)
action_for-Applied jobs node artifact h =
    (_, refl, recompute-Applied jobs node.job_id node.step_id (describe "artifact mismatch" node))
action_for-Applied jobs node missing h = (
  _,
  refl,
  recompute-Applied jobs node.oracle_event.job_id node.oracle_event.step_id
      ("missing event in replay: " ++ node.detail),
)
action_for-Applied jobs node extra h = (_, refl, inl refl)

-- For a node that LocateDivergence returns, GeneratePatch gives an action, and ApplyPatch succeeds
-- on it, unless it is to recompute a step that no job of the map has, which is the error.
pub locate_divergence-Repairs :
    (jobs : Jobs) (oracle replay : List CausalEvent) (node : DivergenceNode)
    → locate_divergence oracle replay ≡ some node
    → Repairs jobs (some node)
unfolding locate_divergence
locate_divergence-Repairs jobs oracle replay node h =
    let (action, made, applied) =
      action_for-Applied jobs node node.type (locate_from_type 0 oracle replay node h) in
    generated jobs node action made applied

-- What FindFirstDivergentNode compares of two events: type and status, and the payload of artifacts.
abbrev pub Matches : CausalEvent → CausalEvent → Type 0
Matches o r =
    (o.type ≡ r.type) × (o.status ≡ r.status) × (o.type ≡ "CI_ARTIFACT" → o.payload ≡ r.payload)

abbrev pub AllMatch : List CausalEvent → List CausalEvent → Type 0
AllMatch [] [] = Unit
AllMatch [] (r ∷ rs) = ⊥
AllMatch (o ∷ os) [] = ⊥
AllMatch (o ∷ os) (r ∷ rs) = Matches o r × AllMatch os rs

differ-none : (o r : CausalEvent) → differ o r ≡ none ↔ Matches o r
unfolding differ
differ-none o r = (
  λ h. (
    ground (arith, eq_iff o.type r.type),
    ground (arith, eq_iff o.type r.type, eq_iff o.status r.status),
    λ t. ground (
      arith,
      eq_iff o.type r.type,
      eq_iff o.status r.status,
      eq_iff o.payload r.payload,
      eq_iff o.type "CI_ARTIFACT",
    ),
  ),
  λ m.
      let (t, s, p) = m in
      ground (
        arith,
        eq_iff o.type r.type,
        eq_iff o.status r.status,
        eq_iff o.payload r.payload,
        eq_iff o.type "CI_ARTIFACT",
        p,
      ),
)

differ_severity :
    (o r : CausalEvent) (d : DiffType × String) (i : ℕ) (later : CausalDiff)
    → differ o r ≡ some d
    → (analyze_cause (found_at i o r (some d) later)).severity ≢ 0
unfolding differ analyze_cause
differ_severity o r d i later h = λ e. ground arith

find_from-AllMatch :
    (i : ℕ) (oracle replay : List CausalEvent)
    → AllMatch oracle replay
    → find_from i oracle replay ≡ find_from i [] []
unfolding find_from
find_from-AllMatch i [] [] h = refl
find_from-AllMatch i [] (r ∷ rs) h = absurd h
find_from-AllMatch i (o ∷ os) [] h = absurd h
find_from-AllMatch i (o ∷ os) (r ∷ rs) h =
    let same = (differ-none o r).1 h.0 in
    ap (λ d. found_at i o r d (find_from (suc i) os rs)) same ∙ find_from-AllMatch (suc i) os rs h.1

no_diff_severity : (analyze_cause (find_from 0 [] [])).severity ≡ 0
unfolding find_from analyze_cause
no_diff_severity = refl

analysed-AllMatch :
    (i : ℕ) (oracle replay : List CausalEvent)
    → (analyze_cause (find_from i oracle replay)).severity ≡ 0
    → AllMatch oracle replay
unfolding find_from analyze_cause
analysed-AllMatch i [] [] h = tt
analysed-AllMatch i [] (r ∷ rs) h = absurd (omega arith)
analysed-AllMatch i (o ∷ os) [] h = absurd (omega arith)
analysed-AllMatch i (o ∷ os) (r ∷ rs) h = elim (Option-cases (differ o r)) [
  | inl e ↦ (
    (differ-none o r).0 e,
    analysed-AllMatch (suc i) os rs (
        subst (λ d. (analyze_cause (found_at i o r d (find_from (suc i) os rs))).severity ≡ 0) e h),
  )
  | inr (d, e) ↦ absurd (
      differ_severity o r d i (find_from (suc i) os rs) e (
        subst (λ d. (analyze_cause (found_at i o r d (find_from (suc i) os rs))).severity ≡ 0) e h))
]

-- The cause that is analysed for two streams has severity 0 exactly where they are equally long and
-- agree, event by event, in type and status, and in payload where the event is a CI_ARTIFACT.
analyze_cause_none :
    (oracle replay : List CausalEvent)
    → (analyze_cause (find_first_divergent_node oracle replay)).severity ≡ 0
      ↔ AllMatch oracle replay
unfolding find_first_divergent_node
analyze_cause_none oracle replay = (
  analysed-AllMatch 0 oracle replay,
  λ h.
      ap (λ d. (analyze_cause d).severity) (find_from-AllMatch 0 oracle replay h)
      ∙ no_diff_severity,
)
