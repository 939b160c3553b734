-- ===== src/Evolution/Worker.antt =====
-- internal/policy/evolution/worker.go: events are handed to the loop, unless their
-- identifier is remembered.
pub mod Memory
pub mod Once
use pads_v.Common.{
  ℕ, zero, suc, ◌+◌, ◌-◌, String, Bool, true, false, Option, none, some, List, [], ◌∷◌, ◌++◌,
  if◌then◌else◌, leb, length, take, drop,
}
use pads_v.Common.Table.{Table, lookup, insert, delete}
use pads_v.Evolution.Queue.{QueueEvent}

-- `loop` is the state that `process` works on.
pub record Worker (S : Type 0) : Type 0 where
  pub loop : S
  pub running : Bool
  pub processed : Table Bool
  pub processed_ord : List String
  pub processed_cnt : ℕ

unfoldable pub new_worker : {S : Type 0} → S → Worker S
new_worker loop = record {
  loop = loop;
  running = false;
  processed = [];
  processed_ord = [];
  processed_cnt = 0;
}

abbrev pub cleanup_threshold : ℕ
cleanup_threshold = 1000

abbrev pub max_retention : ℕ
max_retention = 500

abbrev pub delete_ids : List String → Table Bool → Table Bool
delete_ids [] m = m
delete_ids (id ∷ ids) m = delete_ids ids (delete id m)

-- w.processed[id]
unfoldable pub is_processed : {S : Type 0} → Worker S → String → Bool
is_processed w id = elim (lookup id w.processed) [ none ↦ false | some b ↦ b ]

unfoldable pub cleanup_processed : {S : Type 0} → Worker S → Worker S
cleanup_processed w =
    let surplus = length w.processed_ord - max_retention in
    if leb (length w.processed_ord) max_retention then w else record w {
      processed = delete_ids (take surplus w.processed_ord) w.processed;
      processed_ord = drop surplus w.processed_ord;
    }

unfoldable pub remember : {S : Type 0} → Worker S → String → Worker S
unfolding cleanup_processed
remember w id =
    let noted = record w {
      processed = insert id true w.processed;
      processed_ord = w.processed_ord ++ id ∷ [];
      processed_cnt = w.processed_cnt + 1;
    } in
    if leb cleanup_threshold noted.processed_cnt
    then record (cleanup_processed noted) { processed_cnt = 0 }
    else noted

-- Start, up to its loop, and Stop.
unfoldable pub start : {S : Type 0} → Worker S → Worker S × Bool
start w = if w.running then (w, false) else (record w { running = true }, true)

unfoldable pub stop : {S : Type 0} → Worker S → Worker S × Bool
stop w = if w.running then (record w { running = false }, true) else (w, false)

-- `process` gives the new state, and whether it succeeded.
module _ {F S : Type 0} (process : S → QueueEvent F → S × Bool) where
  unfoldable pub handle : Worker S → QueueEvent F → Worker S
  unfolding is_processed remember
  handle w e =
      if is_processed w e.id
      then w
      else let (loop', success) = process w.loop e in
        if success then remember (record w { loop = loop' }) e.id else record w { loop = loop' }

  unfoldable pub handle_all : Worker S → List (QueueEvent F) → Worker S
  unfolding handle
  handle_all w [] = w
  handle_all w (e ∷ events) = handle_all (handle w e) events
