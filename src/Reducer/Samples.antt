-- ===== src/Reducer/Samples.antt =====
-- A short log.
use pads_v.Common.{ℕ, ◌≡◌, refl, String, Bool, true, Option, some, List, [], ◌∷◌, length, ok}
use pads_v.Common.Int.{pos}
use pads_v.Common.Table.{Table, lookup, insert}
use pads_v.Reducer.{Event, GraphState, EventRow, reduce_all, attach_nodes, run_reduction_loop}
use pads_v.Reducer.Replay.{last_result, reduce_all-last_result}
use pads_v.Reducer.Rows.{run_reduction_loop-ok}

abbrev result : ℕ → String → ℕ → List String → Event
result n id code nodes = record {
  sequence_id = n;
  event_id = id;
  event_type = "TEST_RESULT";
  payload = "";
  exit_code = pos code;
  node_ids = nodes;
}

abbrev log : List Event
log = result 1 "e1" 1 ("main.A" ∷ "main.B" ∷ []) ∷ result 2 "e2" 0 ("main.A" ∷ []) ∷ []

reduce_all-last_result_example : lookup "main.A" (reduce_all [] log) ≡ last_result log "main.A"
reduce_all-last_result_example = reduce_all-last_result log "main.A"

abbrev rows : List EventRow
rows =
    record { seq = 1; event_id = "e1"; event_type = "TEST_RESULT"; payload = ""; exit_code = pos 1 }
    ∷ []

abbrev nodes_of : String → Option (List String)
nodes_of event_id = some ("main.A" ∷ [])

abbrev all_accepted : GraphState → Bool
all_accepted gs = true

abbrev table_after : Table GraphState
table_after = (run_reduction_loop (some rows) nodes_of true all_accepted []).0

loop_fine : run_reduction_loop (some rows) nodes_of true all_accepted [] ≡ (table_after, ok 1)
unfolding run_reduction_loop insert
loop_fine = refl

run_reduction_loop-ok_example :
    (events : List Event) × (attach_nodes nodes_of rows ≡ ok events)
    × (1 ≡ length events)
    × (lookup "main.A" table_after ≡ last_result events "main.A")
run_reduction_loop-ok_example =
    run_reduction_loop-ok rows nodes_of true all_accepted [] table_after 1 "main.A" loop_fine
