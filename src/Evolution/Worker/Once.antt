-- ===== src/Evolution/Worker/Once.antt =====
-- How the worker handles events (Start of internal/policy/evolution/worker.go).
use pads_v.Common.{
  ◌≡◌, refl, sym, ap, subst, ◌∙◌, Bool, true, false, List, [], ◌∷◌, arith, inl, inr, Bool-cases,
}
use pads_v.Common.Count.{Has}
use pads_v.Common.Table.{lookup}
use pads_v.Evolution.Queue.{QueueEvent}
use pads_v.Evolution.Worker.{Worker, new_worker, is_processed, remember, handle, handle_all}
use pads_v.Evolution.Worker.Memory.{
  IsTracked, is_processed-count, remember-IsTracked, remember_kept,
}

module _ {F S : Type 0} (process : S → QueueEvent F → S × Bool) where
  -- The worker once the loop has worked on an event.
  abbrev worked : Worker S → QueueEvent F → Worker S
  worked w e = record w { loop = (process w.loop e).0 }

  handle-known :
      (w : Worker S) (e : QueueEvent F) → is_processed w e.id ≡ true → handle process w e ≡ w
  unfolding handle
  handle-known w e known = rw known refl

  handle-success :
      (w : Worker S) (e : QueueEvent F)
      → is_processed w e.id ≡ false
      → (process w.loop e).1 ≡ true
      → handle process w e ≡ remember (worked w e) e.id
  unfolding handle
  handle-success w e fresh success = rw fresh (rw success refl)

  handle-failed :
      (w : Worker S) (e : QueueEvent F)
      → is_processed w e.id ≡ false
      → (process w.loop e).1 ≡ false
      → handle process w e ≡ worked w e
  unfolding handle
  handle-failed w e fresh failed = rw fresh (rw failed refl)

  worked-IsTracked : (w : Worker S) (e : QueueEvent F) → IsTracked w → IsTracked (worked w e)
  worked-IsTracked w e t = record { listed = t.listed; small = t.small; counted = t.counted }

  handle-IsTracked :
      (w : Worker S) (e : QueueEvent F) → IsTracked w → IsTracked (handle process w e)
  unfolding is_processed
  handle-IsTracked w e t = elim (Bool-cases (is_processed w e.id)) [
    | inl known ↦ subst IsTracked (sym (handle-known w e known)) t
    | inr fresh ↦ elim (Bool-cases (process w.loop e).1) [
      | inl success ↦
          subst IsTracked (sym (handle-success w e fresh success))
            (remember-IsTracked (worked w e) e.id (worked-IsTracked w e t) fresh)
      | inr failed ↦ subst IsTracked (sym (handle-failed w e fresh failed)) (worked-IsTracked w e t)
    ]
  ]

  -- For a worker whose map and list hold the same identifiers, each once and within their bounds,
  -- and an event that the loop would process with success: the worker that has handled it is
  -- unchanged by a next event with the same identifier.
  pub handle_once :
      (w : Worker S) (e again : QueueEvent F)
      → IsTracked w
      → (process w.loop e).1 ≡ true
      → again.id ≡ e.id
      → handle process (handle process w e) again ≡ handle process w e
  unfolding is_processed
  handle_once w e again t success same =
      let held : Has (handle process w e).processed_ord e.id =
        elim (Bool-cases (is_processed w e.id)) [
          | inl known ↦
              subst (λ v. Has v.processed_ord e.id) (sym (handle-known w e known))
                (ground (arith, is_processed-count w e.id t.listed))
          | inr fresh ↦
              subst (λ v. Has v.processed_ord e.id) (sym (handle-success w e fresh success))
                (remember_kept (worked w e) e.id)
        ] in
      let tracked = handle-IsTracked w e t in
      handle-known (handle process w e) again (
        ap (is_processed (handle process w e)) same
        ∙ (is_processed-count (handle process w e) e.id tracked.listed ∙ ground arith))

  new_worker-IsTracked : (loop : S) → IsTracked (new_worker loop)
  unfolding new_worker lookup
  new_worker-IsTracked loop = record {
    listed = (λ id. refl, λ id. omega arith);
    small = omega arith;
    counted = omega arith;
  }

  handle_all-IsTracked_from :
      (w : Worker S) (events : List (QueueEvent F))
      → IsTracked w
      → IsTracked (handle_all process w events)
  unfolding handle_all
  handle_all-IsTracked_from w [] t = t
  handle_all-IsTracked_from w (e ∷ events) t =
      handle_all-IsTracked_from (handle process w e) events (handle-IsTracked w e t)

  -- Whatever events a new worker gets, its map and list hold the same identifiers, each once, at most
  -- 500 and as many as were handled since the last cleanup, which are fewer than 1000.
  pub handle_all-IsTracked :
      (loop : S) (events : List (QueueEvent F))
      → IsTracked (handle_all process (new_worker loop) events)
  handle_all-IsTracked loop events =
      handle_all-IsTracked_from (new_worker loop) events (new_worker-IsTracked loop)
