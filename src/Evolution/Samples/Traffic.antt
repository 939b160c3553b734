-- ===== src/Evolution/Samples/Traffic.antt =====
-- Requests, queued events and a worker.
use pads_v.Common.{subst, none, ℕ, suc, ◌≡◌, refl, String, Bool, true, some, List, [], ◌∷◌, arith}
use pads_v.Common.Int.{ℤ, pos}
use pads_v.Evolution.Types.{Codec, mode_bandit}
use pads_v.Evolution.RateLimit.{Request}
use pads_v.Evolution.Queue.{QueueEvent, new_event_queue}
use pads_v.Evolution.Queue.Reads.{Action, push, poll, play, play_once, HasRead}
use pads_v.Evolution.File.{written, write_failed, empty_file, fits, scan_error}
use pads_v.Evolution.Worker.{Worker, new_worker, handle, handle_all}
use pads_v.Evolution.Worker.Memory.{IsTracked}
use pads_v.Evolution.Worker.Once.{handle_once, handle_all-IsTracked}

abbrev requests : List Request
requests = (1, "Bearer a") ∷ (2, "Bearer a") ∷ (3, "Bearer b") ∷ (9, "Bearer a") ∷ []

abbrev queued : String → QueueEvent ℤ
queued id = record {
  id = id;
  type = "EVOLUTION";
  candidate = pos 3;
  current = pos 2;
  weight = pos 1;
  mode = mode_bandit;
  metadata = [];
}

-- JSON that keeps the identifier.
abbrev by_id : Codec (QueueEvent ℤ)
by_id = record { marshal = λ e. some e.id; unmarshal = λ line. some (queued line) }

abbrev calls : List (Action ℤ)
calls =
    push written (queued "a")
    ∷ poll
    ∷ push (write_failed 0) (queued "b")
    ∷ push written (queued "c")
    ∷ poll
    ∷ []

by_id-short :
    (e : QueueEvent ℤ)
    → fits e.id ≡ true
    → (line : String) → by_id.marshal e ≡ some line
    → fits line ≡ true
by_id-short e short line text = subst (λ l. fits l ≡ true) (ground arith) short

nothing_long : scan_error [] ≡ none
unfolding scan_error
nothing_long = refl

play_once_example :
    (let (last, events) = play by_id (new_event_queue empty_file) calls in
      HasRead by_id events last)
play_once_example = play_once by_id empty_file calls refl nothing_long (
  (tt, by_id-short (queued "a") refl),
  (tt, ((refl, by_id-short (queued "b") refl), ((tt, by_id-short (queued "c") refl), (tt, tt)))),
)

abbrev counting : ℕ → QueueEvent ℤ → ℕ × Bool
counting n e = (suc n, true)

handle_all-IsTracked_example :
    IsTracked (handle_all counting (new_worker 0) (queued "a" ∷ queued "b" ∷ queued "a" ∷ []))
handle_all-IsTracked_example =
    handle_all-IsTracked counting 0 (queued "a" ∷ queued "b" ∷ queued "a" ∷ [])

abbrev busy : Worker ℕ
busy = handle_all counting (new_worker 0) (queued "a" ∷ [])

handle_once_example :
    handle counting (handle counting busy (queued "b")) (queued "b")
    ≡ handle counting busy (queued "b")
handle_once_example =
    handle_once counting busy (queued "b") (queued "b")
      (handle_all-IsTracked counting 0 (queued "a" ∷ [])) refl refl
