-- ===== src/Reducer/Rows.antt =====
-- The table of states after the loop (internal/reducer/loop.go).
use pads_v.Common.{
  ℕ, ◌+◌, ◌≡◌, refl, sym, ap, ◌∙◌, String, Bool, true, Option, none, some, List, [], ◌∷◌, arith,
  if◌then◌else◌, leb, bit, ◌==◌, eq_iff, Bool-cases, inl, inr, length, All, ok, Result-cases,
  Option-cases,
}
use pads_v.Common.Count.{count, IsUnique}
use pads_v.Common.Table.{Table, keys, lookup, insert, lookup-insert}
use pads_v.Reducer.{
  GraphState, Event, is_result, state_from, mark_all, reduce, merge, reduce_all, EventRow,
  attach_nodes, upsert_all, run_reduction_loop,
}
use pads_v.Reducer.Replay.{last_result, reduce_all-last_result, over}

keys-insert :
    {A : Type 0} (k : String) (v : A) (m : Table A) (j : String)
    → count j (keys (insert k v m))
      ≡ (if leb 1 (count k (keys m)) then count j (keys m) else bit (k == j) + count j (keys m))
unfolding insert
keys-insert k v [] j = omega arith
keys-insert k v ((i, w) ∷ m) j =
    ground (arith, eq_iff i k, eq_iff i j, eq_iff k j, keys-insert k v m j)

-- Each state stands once, under its own node.
abbrev IsKeyed : Table GraphState → Type 0
IsKeyed m = All (λ entry. entry.1.node_id ≡ entry.0) m × IsUnique (keys m)

insert_own :
    (id : String) (gs : GraphState) (m : Table GraphState)
    → gs.node_id ≡ id
    → All (λ entry. entry.1.node_id ≡ entry.0) m
    → All (λ entry. entry.1.node_id ≡ entry.0) (insert id gs m)
unfolding insert
insert_own id gs [] own h = (own, tt)
insert_own id gs ((k, other) ∷ m) own h = elim (Bool-cases (k == id)) [
  | inl same ↦ rw same (own, h.1)
  | inr apart ↦ rw apart (h.0, insert_own id gs m own h.1)
]

insert-IsKeyed :
    (id : String) (gs : GraphState) (m : Table GraphState)
    → gs.node_id ≡ id
    → IsKeyed m
    → IsKeyed (insert id gs m)
insert-IsKeyed id gs m own h = (
  insert_own id gs m own h.0,
  λ j. ground (arith, keys-insert id gs m j, h.1 j, h.1 id, eq_iff id j),
)

mark_all-IsKeyed :
    (e : Event) (ids : List String) (m : Table GraphState) → IsKeyed m → IsKeyed (mark_all e ids m)
mark_all-IsKeyed e [] m h = h
mark_all-IsKeyed e (id ∷ ids) m h =
    mark_all-IsKeyed e ids (insert id (state_from e id) m)
      (insert-IsKeyed id (state_from e id) m refl h)

merge-IsKeyed :
    (patch m : Table GraphState)
    → All (λ entry. entry.1.node_id ≡ entry.0) patch
    → IsKeyed m
    → IsKeyed (merge patch m)
unfolding merge
merge-IsKeyed [] m own h = h
merge-IsKeyed ((id, gs) ∷ patch) m own h =
    merge-IsKeyed patch (insert id gs m) own.1 (insert-IsKeyed id gs m own.0 h)

reduce_own :
    (e : Event) (m : Table GraphState) → All (λ entry. entry.1.node_id ≡ entry.0) (reduce e m)
unfolding reduce
reduce_own e m = elim (Bool-cases (is_result e.event_type)) [
  | inl result ↦ rw result (mark_all-IsKeyed e e.node_ids [] (tt, λ j. omega arith)).0
  | inr other ↦ rw other tt
]

reduce_all-IsKeyed :
    (events : List Event) (m : Table GraphState) → IsKeyed m → IsKeyed (reduce_all m events)
unfolding reduce_all
reduce_all-IsKeyed [] m h = h
reduce_all-IsKeyed (e ∷ events) m h =
    reduce_all-IsKeyed events (merge (reduce e m) m)
      (merge-IsKeyed (reduce e m) m (reduce_own e m) h)

lookup_absent : (id : String) (m : Table GraphState) → count id (keys m) ≡ 0 → lookup id m ≡ none
unfolding lookup
lookup_absent id [] h = refl
lookup_absent id ((k, gs) ∷ m) h = ground (arith, lookup_absent id m)

over_step :
    (k id own : String) (gs : GraphState) (later older : Option GraphState)
    → own ≡ k
    → ((k == id) ≡ true → later ≡ none)
    → over later (if own == id then some gs else older)
      ≡ over (if k == id then some gs else later) older
over_step k id own gs later older e absent = elim (Bool-cases (k == id)) [
  | inl same ↦ let gone = absent same in ground (arith, eq_iff own id, eq_iff k id)
  | inr apart ↦ ground (arith, eq_iff own id, eq_iff k id)
]

-- Where no upsert is refused, the rows are the states, over those that were there.
lookup-upsert_all :
    (accepts : GraphState → Bool) (states table : Table GraphState) (id : String)
    → IsKeyed states
    → (upsert_all accepts states table).1 ≡ none
    → lookup id (upsert_all accepts states table).0 ≡ over (lookup id states) (lookup id table)
unfolding upsert_all lookup
lookup-upsert_all accepts [] table id h fine = refl
lookup-upsert_all accepts ((k, gs) ∷ states) table id h fine = elim (Bool-cases (accepts gs)) [
  | inl taken ↦
      let rest_keyed : IsKeyed states = (h.0.1, λ j. omega (arith, h.1 j)) in
      let rest =
        lookup-upsert_all accepts states (insert gs.node_id gs table) id rest_keyed
          (rw taken at fine) in
      rw taken (
        rest
        ∙ (ap (over (lookup id states)) (lookup-insert gs.node_id id gs table)
            ∙ over_step k id gs.node_id gs (lookup id states) (lookup id table) h.0.0
                (λ same. lookup_absent id states (ground (arith, h.1 id, eq_iff k id)))))
  | inr refused ↦ absurd (ground arith)
]

nothing-IsKeyed : IsKeyed []
nothing-IsKeyed = (tt, λ j. omega arith)

upserted :
    (accepts : GraphState → Bool) (events : List Event) (id : String)
    → (upsert_all accepts (reduce_all [] events) []).1 ≡ none
    → lookup id (upsert_all accepts (reduce_all [] events) []).0 ≡ last_result events id
upserted accepts events id fine =
    lookup-upsert_all accepts (reduce_all [] events) [] id
      (reduce_all-IsKeyed events [] nothing-IsKeyed) fine
    ∙ (ap (λ o. over o (lookup id [])) (reduce_all-last_result events id)
        ∙ over_empty (last_result events id) id)
  where
    over_empty : (o : Option GraphState) (id : String) → over o (lookup id []) ≡ o
    over_empty none id = lookup_absent id [] refl
    over_empty (some gs) id = refl

-- After a reduction loop without an error, the number it returns is that of the events, with their
-- nodes, that it read, and the row of a node in the table is the state by the last result that names
-- it, whatever the table held before; there is no row where no result names the node.
pub run_reduction_loop-ok :
    (rows : List EventRow) (node_ids_of : String → Option (List String)) (clears : Bool)
    (accepts : GraphState → Bool) (table table' : Table GraphState) (n : ℕ) (id : String)
    → run_reduction_loop (some rows) node_ids_of clears accepts table ≡ (table', ok n)
    → (events : List Event) × (attach_nodes node_ids_of rows ≡ ok events)
      × (n ≡ length events)
      × (lookup id table' ≡ last_result events id)
unfolding run_reduction_loop
run_reduction_loop-ok rows node_ids_of clears accepts table table' n id h =
    elim (Result-cases (attach_nodes node_ids_of rows)) [
      | inr (e, failed) ↦ absurd (ground arith)
      | inl (events, read) ↦ elim (Bool-cases clears) [
        | inr kept ↦ absurd (ground arith)
        | inl cleared ↦ elim (Option-cases (upsert_all accepts (reduce_all [] events) []).1) [
          | inr (e, refused) ↦ absurd (ground arith)
          | inl fine ↦
              let there : (upsert_all accepts (reduce_all [] events) []).0 ≡ table' =
                ground arith in
              (
                events,
                read,
                ground arith,
                ap (lookup id) (sym there) ∙ upserted accepts events id fine,
              )
        ]
      ]
    ]
