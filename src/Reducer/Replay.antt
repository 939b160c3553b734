-- ===== src/Reducer/Replay.antt =====
-- The state of a node by the log (internal/reducer).
use mathlib.Core.Option.{some-injective}
use pads_v.Common.{
  ◌≡◌, refl, sym, ap, ◌∙◌, String, Bool, true, false, ◌&&◌, Option, none, some, List, [], ◌∷◌,
  arith, if◌then◌else◌, leb, ◌==◌, eq_iff, Bool-cases, inl, inr, ◌⊎◌, All,
}
use pads_v.Common.Count.{count}
use pads_v.Common.Table.{Table, lookup, insert, lookup-insert}
use pads_v.Reducer.{GraphState, Event, is_result, state_from, mark_all, reduce, merge, reduce_all}

-- The event is a result that names the node.
abbrev pub touches : Event → String → Bool
touches e id = is_result e.event_type && leb 1 (count id e.node_ids)

-- The state of a node by the last of the events that is a result and names it, if there is one.
abbrev pub last_result : List Event → String → Option GraphState
last_result [] id = none
last_result (e ∷ events) id = elim (last_result events id) [
  | some gs ↦ some gs
  | none ↦ if touches e id then some (state_from e id) else none
]

lookup-mark_all :
    (e : Event) (ids : List String) (m : Table GraphState) (id : String)
    → lookup id (mark_all e ids m)
      ≡ (if leb 1 (count id ids) then some (state_from e id) else lookup id m)
lookup-mark_all e [] m id = refl
lookup-mark_all e (x ∷ ids) m id = ground (
  arith,
  eq_iff x id,
  lookup-mark_all e ids (insert x (state_from e x) m) id,
  lookup-insert x id (state_from e x) m,
)

-- Every state of a patch is the one that its event gives.
abbrev IsFrom : Event → Table GraphState → Type 0
IsFrom e = All (λ entry. entry.1 ≡ state_from e entry.0)

insert-IsFrom :
    (e : Event) (id : String) (m : Table GraphState)
    → IsFrom e m
    → IsFrom e (insert id (state_from e id) m)
unfolding insert
insert-IsFrom e id [] h = (refl, tt)
insert-IsFrom e id ((k, gs) ∷ m) h = elim (Bool-cases (k == id)) [
  | inl same ↦ rw same (refl, h.1)
  | inr other ↦ rw other (h.0, insert-IsFrom e id m h.1)
]

mark_all-IsFrom :
    (e : Event) (ids : List String) (m : Table GraphState)
    → IsFrom e m
    → IsFrom e (mark_all e ids m)
mark_all-IsFrom e [] m h = h
mark_all-IsFrom e (id ∷ ids) m h =
    mark_all-IsFrom e ids (insert id (state_from e id) m) (insert-IsFrom e id m h)

-- What a patch says of a node, before what was there.
abbrev pub over : Option GraphState → Option GraphState → Option GraphState
over none older = older
over (some gs) older = some gs

lookup-IsFrom :
    (e : Event) (m : Table GraphState) (id : String) (gs : GraphState)
    → IsFrom e m
    → lookup id m ≡ some gs
    → gs ≡ state_from e id
unfolding lookup
lookup-IsFrom e [] id gs h found = absurd (cc)
lookup-IsFrom e ((k, v) ∷ m) id gs h found = elim (Bool-cases (k == id)) [
  | inl same ↦
      let here : some v ≡ some gs = ground arith in
      sym (some-injective v gs here) ∙ (h.0 ∙ ap (state_from e) (ground (arith, eq_iff k id)))
  | inr other ↦ lookup-IsFrom e m id gs h.1 (ground arith)
]

lookup-merge :
    (e : Event) (patch state : Table GraphState) (id : String)
    → IsFrom e patch
    → lookup id (merge patch state) ≡ over (lookup id patch) (lookup id state)
unfolding merge lookup
lookup-merge e [] state id h = refl
lookup-merge e ((k, gs) ∷ patch) state id h =
    lookup-merge e patch (insert k gs state) id h.1
    ∙ (ap (over (lookup id patch)) (lookup-insert k id gs state) ∙ settled (Bool-cases (k == id)))
  where
    same_state :
        (k ≡ id) → (o : Option GraphState) → o ≡ lookup id patch → over o (some gs) ≡ some gs
    same_state here none found = refl
    same_state here (some other) found =
        ap some
          (lookup-IsFrom e patch id other h.1 (sym found) ∙ sym (h.0 ∙ ap (state_from e) here))

    settled :
        (k == id ≡ true) ⊎ (k == id ≡ false)
        → over (lookup id patch) (if k == id then some gs else lookup id state)
          ≡ over (if k == id then some gs else lookup id patch) (lookup id state)
    settled (inl same) = rw same (same_state (ground (arith, eq_iff k id)) (lookup id patch) refl)
    settled (inr other) = rw other refl

-- One event of the loop.
lookup_step :
    (e : Event) (state : Table GraphState) (id : String)
    → lookup id (merge (reduce e state) state)
      ≡ (if touches e id then some (state_from e id) else lookup id state)
unfolding reduce lookup
lookup_step e state id = elim (Bool-cases (is_result e.event_type)) [
  | inl result ↦ rw result (
      lookup-merge e (mark_all e e.node_ids []) state id (mark_all-IsFrom e e.node_ids [] tt)
      ∙ (ap (λ o. over o (lookup id state)) (lookup-mark_all e e.node_ids [] id)
          ∙ named (Bool-cases (leb 1 (count id e.node_ids)))))
  | inr other ↦ rw other (lookup-merge e [] state id tt)
]
  where
    named :
        (leb 1 (count id e.node_ids) ≡ true) ⊎ (leb 1 (count id e.node_ids) ≡ false)
        → over
            (if leb 1 (count id e.node_ids) then some (state_from e id) else lookup id [])
            (lookup id state)
          ≡ (if leb 1 (count id e.node_ids) then some (state_from e id) else lookup id state)
    named (inl t) = rw t refl
    named (inr f) = rw f refl

reduce_from :
    (state : Table GraphState) (events : List Event) (id : String)
    → lookup id (reduce_all state events) ≡ over (last_result events id) (lookup id state)
unfolding reduce_all
reduce_from state [] id = refl
reduce_from state (e ∷ events) id =
    reduce_from (merge (reduce e state) state) events id
    ∙ (ap (over (last_result events id)) (lookup_step e state id)
        ∙ combine (last_result events id) (touches e id))
  where
    combine :
        (later : Option GraphState) (touched : Bool)
        → over later (if touched then some (state_from e id) else lookup id state)
          ≡ over
              (elim later [
                | some gs ↦ some gs
                | none ↦ if touched then some (state_from e id) else none
              ])
              (lookup id state)
    combine none true = refl
    combine none false = refl
    combine (some gs) touched = refl

nothing : (id : String) → lookup {V = GraphState} id [] ≡ none
unfolding lookup
nothing id = refl

-- After the log is replayed from nothing, a node has the state given by the last OS_EXEC_RESULT or
-- TEST_RESULT that names it, and no state where there is none.
pub reduce_all-last_result :
    (events : List Event) (id : String) → lookup id (reduce_all [] events) ≡ last_result events id
reduce_all-last_result events id = reduce_from [] events id ∙ over_nothing (last_result events id)
  where
    over_nothing : (o : Option GraphState) → over o (lookup id []) ≡ o
    over_nothing none = nothing id
    over_nothing (some gs) = refl
