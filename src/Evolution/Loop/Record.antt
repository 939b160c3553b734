-- ===== src/Evolution/Loop/Record.antt =====
-- What a call that returns has recorded.
use pads_v.Common.{◌≡◌, refl, ◌∙◌, ap, Bool, Option, some, [], ◌∷◌, ◌++◌, arith}
use pads_v.Common.Float.{Float}
use pads_v.Evolution.Types.{Candidate, Event, Codec}
use pads_v.Evolution.Wal.{Entry, Wal, Digest, append, new_entry}
use pads_v.Evolution.Wal.Chain.{IsChained, append-IsChained}
use pads_v.Evolution.Loop.{
  Loop, World, returned, LoopError, evaluate_step, wal_step, settle, evolve,
}
use pads_v.Evolution.Loop.Decision.{judged}

module _ (fl : Float) (entries : Codec (Entry fl.F)) (events : Codec (Event fl.F))
    (digest : Digest fl.F) (io : World) where
  open fl use {F}

  wal-settle :
      (l : Loop F) (accepted : Bool) (candidate current : Candidate) (weight : F) {l' : Loop F}
      {b : Bool} {failed : Option LoopError}
      → settle fl entries events digest io l accepted candidate current weight
        ≡ returned l' b failed
      → l'.wal ≡ l.wal
  unfolding settle
  wal-settle l accepted candidate current weight h = ground arith

  evaluation_keeps :
      (l : Loop F) (candidate current : Candidate) (weight : F)
      → ((evaluate_step fl l candidate current weight).0.wal ≡ l.wal)
        × ((evaluate_step fl l candidate current weight).0.mode ≡ l.mode)
  unfolding evaluate_step
  evaluation_keeps l candidate current weight = (ground arith, ground arith)

  wal_step_appends :
      (l : Loop F) (candidate current : Candidate) (weight : F) (w : Wal F)
      → l.wal ≡ some w
      → (wal_step fl entries events digest io l candidate current weight).wal
        ≡ some
            (append entries digest io.now io.wal_disk w candidate.score current.score weight
              l.mode).0
  unfolding wal_step
  wal_step_appends l candidate current weight w h = ground arith

  abbrev pub logged_wal : Loop F → Wal F → Candidate → Candidate → F → Wal F
  logged_wal l w candidate current weight =
      (append entries digest io.now io.wal_disk w candidate.score current.score weight l.mode).0

  -- An evolution of a loop with a chained WAL that returns, rolled back or not, leaves a WAL with
  -- one entry more, of its scores, weight and mode, and the chain of hashes goes on through it.
  pub evolve-wal :
      (l : Loop F) (candidate current : Candidate) (weight : F) (w : Wal F) {l' : Loop F}
      {accepted : Bool} {failed : Option LoopError}
      → l.wal ≡ some w
      → IsChained digest "" w.entries
      → evolve fl entries events digest io l candidate current weight ≡ returned l' accepted failed
      → (w' : Wal F) × (l'.wal ≡ some w')
        × (w'.entries
            ≡ w.entries
              ++ new_entry entries digest io.now w candidate.score current.score weight l.mode ∷ [])
        × IsChained digest "" w'.entries
  unfolding evolve append
  evolve-wal l candidate current weight w {l'} held chained h =
      let (evaluated, result, accepted) = evaluate_step fl l candidate current weight in
      let kept = evaluation_keeps l candidate current weight in
      let logged = wal_step_appends evaluated candidate current weight w (kept.0 ∙ held) in
      let settled =
        wal-settle (judged fl entries events digest io l candidate current weight) accepted
          candidate current weight h in
      (
        logged_wal l w candidate current weight,
        settled
            ∙ logged
            ∙ ap
                (λ m.
                  some
                    (append entries digest io.now io.wal_disk w candidate.score current.score weight
                      m).0)
                kept.1,
        refl,
        append-IsChained entries digest io.now io.wal_disk w candidate.score current.score weight
            l.mode chained,
      )
