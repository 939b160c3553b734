-- ===== src/Evolution/Loop/Decision.antt =====
-- When an evolution is accepted, rolled back, or does not return.
use pads_v.Common.{◌≡◌, sym, ◌∙◌, Bool, true, false, Option, none, arith, ◌↔◌}
use pads_v.Common.Float.{Float}
use pads_v.Common.Int.{◌≤ℤ◌}
use pads_v.Evolution.Types.{Candidate, Event, Codec}
use pads_v.Evolution.Detector.{Detector, add, is_stable, is_oscillating}
use pads_v.Evolution.Gate.{orchestrate}
use pads_v.Evolution.Wal.{Entry, Digest}
use pads_v.Evolution.Loop.{
  Loop, World, returned, crashed, LoopError, is_unstable, evaluate_step, wal_step, settle, evolve,
}

module _ (fl : Float) (entries : Codec (Entry fl.F)) (events : Codec (Event fl.F))
    (digest : Digest fl.F) (io : World) where
  open fl use {F}

  -- The loop when its stability is judged: the score is in the window of its detector, and the
  -- cycle is in the WAL.
  abbrev pub judged : Loop F → Candidate → Candidate → F → Loop F
  judged l candidate current weight =
      let (evaluated, result, accepted) = evaluate_step fl l candidate current weight in
      let logged = wal_step fl entries events digest io evaluated candidate current weight in
      record logged { detector = add logged.detector (fl.of_int result.score) }

  settle_accepted :
      (l : Loop F) (accepted : Bool) (candidate current : Candidate) (weight : F) {l' : Loop F}
      {failed : Option LoopError}
      → settle fl entries events digest io l accepted candidate current weight
        ≡ returned l' true failed
      → (accepted ≡ true) × (is_unstable fl l.detector ≡ false) × (l'.detector ≡ l.detector)
  unfolding settle
  settle_accepted l accepted candidate current weight h = ground arith

  evaluate_accepted :
      (l : Loop F) (candidate current : Candidate) (weight : F)
      → (evaluate_step fl l candidate current weight).2 ≡ true
      → fl.to_int (fl.mul (fl.of_int current.score) weight)
        ≤ℤ fl.to_int (fl.mul (fl.of_int candidate.score) weight)
  unfolding evaluate_step orchestrate
  evaluate_accepted l candidate current weight h = ground arith

  calm_parts :
      {d d' : Detector F}
      → d' ≡ d
      → is_unstable fl d ≡ false
      → (is_stable fl d' ≡ true) × (is_oscillating fl d' ≡ false)
  unfolding is_unstable
  calm_parts same calm = ground arith

  -- An evolution that returns with the candidate accepted has a candidate whose weighted score is no
  -- less than the current one's, and leaves a detector that is stable and does not oscillate.
  pub evolve_accepted :
      (l : Loop F) (candidate current : Candidate) (weight : F) {l' : Loop F}
      {failed : Option LoopError}
      → evolve fl entries events digest io l candidate current weight ≡ returned l' true failed
      → (fl.to_int (fl.mul (fl.of_int current.score) weight)
          ≤ℤ fl.to_int (fl.mul (fl.of_int candidate.score) weight))
        × (is_stable fl l'.detector ≡ true)
        × (is_oscillating fl l'.detector ≡ false)
  unfolding evolve
  evolve_accepted l candidate current weight h =
      let (evaluated, result, accepted) = evaluate_step fl l candidate current weight in
      let logged = wal_step fl entries events digest io evaluated candidate current weight in
      let (agreed, calm, kept) =
        settle_accepted (record logged { detector = add logged.detector (fl.of_int result.score) })
          accepted candidate current weight h in
      let parts = calm_parts kept calm in
      (evaluate_accepted l candidate current weight agreed, parts.0, parts.1)

  settle_crashed :
      (l : Loop F) (accepted : Bool) (candidate current : Candidate) (weight : F)
      → (settle fl entries events digest io l accepted candidate current weight ≡ crashed)
        ↔ ((l.wal ≡ none) × (is_unstable fl l.detector ≡ true))
  unfolding settle
  settle_crashed l accepted candidate current weight = (λ h. ground arith, λ h. ground arith)

  wal-evaluate_step :
      (l : Loop F) (candidate current : Candidate) (weight : F)
      → (evaluate_step fl l candidate current weight).0.wal ≡ l.wal
  unfolding evaluate_step
  wal-evaluate_step l candidate current weight = ground arith

  wal-wal_step :
      (l : Loop F) (candidate current : Candidate) (weight : F)
      → ((wal_step fl entries events digest io l candidate current weight).wal ≡ none)
        ↔ (l.wal ≡ none)
  unfolding wal_step
  wal-wal_step l candidate current weight = (λ h. ground arith, λ h. ground arith)

  -- An evolution panics exactly where the loop has no WAL and its detector, with the new score in
  -- its window, is unstable.
  pub evolve_crashed :
      (l : Loop F) (candidate current : Candidate) (weight : F)
      → (evolve fl entries events digest io l candidate current weight ≡ crashed)
        ↔ ((l.wal ≡ none) × (is_unstable fl (judged l candidate current weight).detector ≡ true))
  unfolding evolve
  evolve_crashed l candidate current weight =
      let (evaluated, result, accepted) = evaluate_step fl l candidate current weight in
      let same = wal-evaluate_step l candidate current weight in
      let logged = wal-wal_step evaluated candidate current weight in
      let both =
        settle_crashed (judged l candidate current weight) accepted candidate current weight in
      (
        λ h. (let none_left = logged.0 ((both.0 h).0) in sym same ∙ none_left, (both.0 h).1),
        λ h. both.1 (logged.1 (same ∙ h.0), h.1),
      )
