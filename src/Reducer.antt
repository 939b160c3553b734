-- ===== src/Reducer.antt =====
-- internal/reducer/reduce.go and loop.go, with the tables of internal/storage that they read and
-- write: the log of events is replayed to the state of each node.
pub mod Replay
pub mod Rows
mod Samples
use pads_v.Common.{
  ℕ, String, eqb, Bool, true, false, ◌||◌, Option, none, some, List, [], ◌∷◌, if◌then◌else◌, ◌==◌,
  length, Result, ok, err,
}
use pads_v.Common.Int.{ℤ, pos, negsuc}
use pads_v.Common.Table.{Table, insert}

pub record GraphState : Type 0 where
  pub node_id : String
  pub state : String
  pub last_event_id : String
  pub last_exit_code : ℤ
  pub last_stderr_hash : String

pub record Event : Type 0 where
  pub sequence_id : ℕ
  pub event_id : String
  pub event_type : String
  pub payload : String
  pub exit_code : ℤ
  pub node_ids : List String

abbrev pub state_stable : String
state_stable = "STABLE"

abbrev pub state_broken : String
state_broken = "BROKEN"

abbrev is_zero : ℤ → Bool
is_zero (pos n) = eqb n 0
is_zero (negsuc n) = false

abbrev pub is_result : String → Bool
is_result type = type == "OS_EXEC_RESULT" || type == "TEST_RESULT"

-- The state that an event gives to a node it names.
abbrev pub state_from : Event → String → GraphState
state_from event node_id = record {
  node_id = node_id;
  state = if is_zero event.exit_code then state_stable else state_broken;
  last_event_id = event.event_id;
  last_exit_code = event.exit_code;
  last_stderr_hash = "";
}

-- newState[nodeID] = ... for each node in turn
abbrev pub mark_all : Event → List String → Table GraphState → Table GraphState
mark_all event [] m = m
mark_all event (id ∷ ids) m = mark_all event ids (insert id (state_from event id) m)

-- Reduce: the patch of one event. It does not read the state.
unfoldable pub reduce : Event → Table GraphState → Table GraphState
reduce event current = if is_result event.event_type then mark_all event event.node_ids [] else []

-- for nodeID, gs := range patch { state[nodeID] = gs }
unfoldable pub merge : Table GraphState → Table GraphState → Table GraphState
merge [] state = state
merge ((id, gs) ∷ patch) state = merge patch (insert id gs state)

unfoldable pub reduce_all : Table GraphState → List Event → Table GraphState
unfolding reduce merge
reduce_all state [] = state
reduce_all state (e ∷ events) = reduce_all (merge (reduce e state) state) events

-- A row of the table `events`, and the two tables read.
pub record EventRow : Type 0 where
  pub seq : ℕ
  pub event_id : String
  pub event_type : String
  pub payload : String
  pub exit_code : ℤ

pub data LoopError : Type 0 where
  query_failed clear_failed upsert_failed : LoopError
  no_node_ids : String → LoopError

-- The events with their nodes; `node_ids_of` answers `GetEventNodeIDs`, nothing where it fails.
unfoldable pub attach_nodes :
    (String → Option (List String)) → List EventRow → Result LoopError (List Event)
attach_nodes node_ids_of [] = ok []
attach_nodes node_ids_of (r ∷ rows) =
    let rest = attach_nodes node_ids_of rows in
    elim (node_ids_of r.event_id) [
      | none ↦ err (no_node_ids r.event_id)
      | some ids ↦ elim rest [
        | err e ↦ err e
        | ok events ↦ ok (
            record {
              sequence_id = r.seq;
              event_id = r.event_id;
              event_type = r.event_type;
              payload = r.payload;
              exit_code = r.exit_code;
              node_ids = ids;
            }
            ∷ events)
      ]
    ]

-- `INSERT OR REPLACE` of each state under its node; `accepts` is false where the database refuses.
unfoldable pub upsert_all :
    (GraphState → Bool) → Table GraphState → Table GraphState → Table GraphState × Option LoopError
upsert_all accepts [] table = (table, none)
upsert_all accepts ((id, gs) ∷ states) table =
    let next = upsert_all accepts states (insert gs.node_id gs table) in
    if accepts gs then next else (table, some upsert_failed)

-- RunReductionLoop: the table `graph_state` after it, and the number of events or the error. `rows`
-- is nothing where the query fails.
unfoldable pub run_reduction_loop :
    Option (List EventRow)
    → (String → Option (List String))
    → (clears : Bool) → (GraphState → Bool)
    → Table GraphState
    → Table GraphState × Result LoopError ℕ
unfolding attach_nodes reduce_all upsert_all
run_reduction_loop none node_ids_of clears accepts table = (table, err query_failed)
run_reduction_loop (some rows) node_ids_of clears accepts table =
    elim (attach_nodes node_ids_of rows) [
      | err e ↦ (table, err e)
      | ok events ↦
          let states = reduce_all [] events in
          let (table', failed) = upsert_all accepts states [] in
          if clears
          then elim failed [ none ↦ (table', ok (length events)) | some e ↦ (table', err e) ]
          else (table, err clear_failed)
    ]
