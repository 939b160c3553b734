-- ===== src/Ci/Causal/Divergence/First.antt =====
-- Where the two comparisons stop, and what they compare.
use pads_v.Common.{
  ℕ, suc, ◌+◌, ◌≤◌, ◌≡◌, refl, ap₂, subst, ◌≢◌, String, Option, none, some, List, [], ◌∷◌, map,
  arith, inl, inr, ◌↔◌, eq_iff, get_elem?, take, Option-cases,
}
use pads_v.Ci.Causal.{CausalEvent}
use pads_v.Ci.Causal.Divergence.{
  DiffType, no_diff, DivergenceNode, CausalDiff, no_event, diverge, locate_from, locate_divergence,
  differ, found_at, located_at, find_from, find_first_divergent_node,
}

-- What LocateDivergence compares of an event.
abbrev pub Compared : Type 0
Compared = String × String × String × String × String

abbrev pub compared : CausalEvent → Compared
compared e = (e.type, e.status, e.payload, e.causal_id, e.parent_id)

diverge-none : (o r : CausalEvent) → diverge o r ≡ none → compared o ≡ compared r
unfolding diverge
diverge-none o r h = ground (
  arith,
  eq_iff o.type r.type,
  eq_iff o.status r.status,
  eq_iff o.payload r.payload,
  eq_iff o.causal_id r.causal_id,
  eq_iff o.parent_id r.parent_id,
)

diverge_same : (o r : CausalEvent) → compared o ≡ compared r → diverge o r ≡ none
unfolding diverge
diverge_same o r h = ground (
  arith,
  eq_iff o.type r.type,
  eq_iff o.status r.status,
  eq_iff o.payload r.payload,
  eq_iff o.causal_id r.causal_id,
  eq_iff o.parent_id r.parent_id,
)

diverge_parts :
    (o r : CausalEvent) (d : DiffType × String) → diverge o r ≡ some d → compared o ≢ compared r
diverge_parts o r d e same = let none_found = diverge_same o r same in cc

-- The event at an index, zero where the stream has ended.
abbrev pub event_at : List CausalEvent → ℕ → CausalEvent
event_at es i = elim (get_elem? es i) [ none ↦ no_event | some e ↦ e ]

-- The streams agree before index `k`, and not at it: there the one has an event that differs in
-- what is compared, or has ended.
abbrev pub PartsAt : ℕ → List CausalEvent → List CausalEvent → Type 0
PartsAt k oracle replay =
    (take k (map compared oracle) ≡ take k (map compared replay))
    × (get_elem? (map compared oracle) k ≢ get_elem? (map compared replay) k)

-- What a located node says of two streams that are compared from index `i` on.
abbrev Located : ℕ → List CausalEvent → List CausalEvent → DivergenceNode → Type 0
Located i oracle replay node =
    (k : ℕ) × (node.index ≡ i + k)
    × PartsAt k oracle replay
    × (node.oracle_event ≡ event_at oracle k)
    × (node.replay_event ≡ event_at replay k)

locate_from_agree :
    (i : ℕ) (oracle replay : List CausalEvent)
    → map compared oracle ≡ map compared replay
    → locate_from i oracle replay ≡ none
unfolding locate_from
locate_from_agree i [] [] h = refl
locate_from_agree i [] (r ∷ rs) h = absurd (cc)
locate_from_agree i (o ∷ os) [] h = absurd (cc)
locate_from_agree i (o ∷ os) (r ∷ rs) h =
    let same = diverge_same o r (cc) in ground (arith, locate_from_agree (suc i) os rs (cc))

locate_from-none :
    (i : ℕ) (oracle replay : List CausalEvent)
    → locate_from i oracle replay ≡ none
    → map compared oracle ≡ map compared replay
unfolding locate_from
locate_from-none i [] [] h = refl
locate_from-none i [] (r ∷ rs) h = absurd (cc)
locate_from-none i (o ∷ os) [] h = absurd (cc)
locate_from-none i (o ∷ os) (r ∷ rs) h = elim (Option-cases (diverge o r)) [
  | inl e ↦ ap₂ (λ a l. a ∷ l) (diverge-none o r e) (locate_from-none (suc i) os rs (ground arith))
  | inr (d, e) ↦ absurd (ground arith)
]

-- LocateDivergence returns nil exactly where the two streams are equally long and agree, event by
-- event, in type, status, payload, causal identifier and parent.
pub locate_divergence-none :
    (oracle replay : List CausalEvent)
    → locate_divergence oracle replay ≡ none ↔ map compared oracle ≡ map compared replay
unfolding locate_divergence
locate_divergence-none oracle replay =
    (locate_from-none 0 oracle replay, locate_from_agree 0 oracle replay)

locate_from-Located :
    (i : ℕ) (oracle replay : List CausalEvent) (node : DivergenceNode)
    → locate_from i oracle replay ≡ some node
    → Located i oracle replay node
unfolding locate_from
locate_from-Located i [] [] node h = absurd (cc)
locate_from-Located i [] (r ∷ rs) node h =
    (0, ground arith, (refl, λ e. cc), ground arith, ground arith)
locate_from-Located i (o ∷ os) [] node h =
    (0, ground arith, (refl, λ e. cc), ground arith, ground arith)
locate_from-Located i (o ∷ os) (r ∷ rs) node h = elim (Option-cases (diverge o r)) [
  | inl e ↦
      let same = diverge-none o r e in
      let (k, at, (before, parts), oracle_at, replay_at) =
        locate_from-Located (suc i) os rs node (ground arith) in
      (suc k, omega arith, (ap₂ (λ a l. a ∷ l) same before, parts), oracle_at, replay_at)
  | inr (d, e) ↦
      (0, ground arith, (refl, λ same. diverge_parts o r d e (cc)), ground arith, ground arith)
]

-- A node that LocateDivergence returns stands where the streams first part: they agree on all that
-- is compared before its index and not at it, and its two events are the streams' there, zero where
-- the stream has ended.
pub locate_divergence_first :
    (oracle replay : List CausalEvent) (node : DivergenceNode)
    → locate_divergence oracle replay ≡ some node
    → PartsAt node.index oracle replay
      × (node.oracle_event ≡ event_at oracle node.index)
      × (node.replay_event ≡ event_at replay node.index)
unfolding locate_divergence
locate_divergence_first oracle replay node h =
    let (k, at, parts, oracle_at, replay_at) = locate_from-Located 0 oracle replay node h in
    let here : k ≡ node.index = omega arith in
    subst
      (λ n.
        PartsAt n oracle replay
        × (node.oracle_event ≡ event_at oracle n)
        × (node.replay_event ≡ event_at replay n))
      here (parts, oracle_at, replay_at)

differ-diverge :
    (o r : CausalEvent) (d : DiffType × String)
    → differ o r ≡ some d
    → (d' : DiffType × String) × (diverge o r ≡ some d')
unfolding differ diverge
differ-diverge o r d h = elim (Option-cases (diverge o r)) [
  | inl e ↦
      absurd
        (ground (arith, eq_iff o.type r.type, eq_iff o.status r.status, eq_iff o.payload r.payload))
  | inr found ↦ found
]

-- What the locator finds no later than index `k`.
abbrev LocatedBy : ℕ → Option DivergenceNode → Type 0
LocatedBy k found = (node : DivergenceNode) × (found ≡ some node) × (node.index ≤ k)

-- One step of the two loops, on the results of their bodies and on what the rest finds.
found_step :
    (i : ℕ) (o r : CausalEvent) (x y : Option (DiffType × String)) (later : CausalDiff)
    (located : Option DivergenceNode)
    → ((d : DiffType × String) → x ≡ some d → (d' : DiffType × String) × (y ≡ some d'))
    → (later.type ≢ no_diff → (suc i ≤ later.index) × LocatedBy later.index located)
    → (let diff = found_at i o r x later in
        diff.type ≢ no_diff → (i ≤ diff.index) × LocatedBy diff.index (located_at i o r y located))
found_step i o r none none later located stops rest h =
    let (k, found) = rest h in (omega arith, found)
found_step i o r none (some d) later located stops rest h =
    let (k, found) = rest h in (omega arith, (_, refl, omega arith))
found_step i o r (some d) none later located stops rest h =
    let (d', e) = stops d refl in absurd (cc)
found_step i o r (some d) (some d') later located stops rest h =
    (omega arith, (_, refl, omega arith))

find_from-locate :
    (i : ℕ) (oracle replay : List CausalEvent)
    → (find_from i oracle replay).type ≢ no_diff
    → (i ≤ (find_from i oracle replay).index)
      × LocatedBy (find_from i oracle replay).index (locate_from i oracle replay)
unfolding find_from locate_from
find_from-locate i [] [] h = absurd (h refl)
find_from-locate i [] (r ∷ rs) h = (omega arith, (_, refl, omega arith))
find_from-locate i (o ∷ os) [] h = (omega arith, (_, refl, omega arith))
find_from-locate i (o ∷ os) (r ∷ rs) h =
    found_step i o r (differ o r) (diverge o r) (find_from (suc i) os rs)
      (locate_from (suc i) os rs) (differ-diverge o r) (find_from-locate (suc i) os rs) h

-- Where FindFirstDivergentNode reports a difference, LocateDivergence returns a node, at the same
-- index or before it.
find_first-locate :
    (oracle replay : List CausalEvent)
    → (find_first_divergent_node oracle replay).type ≢ no_diff
    → (node : DivergenceNode) × (locate_divergence oracle replay ≡ some node)
      × (node.index ≤ (find_first_divergent_node oracle replay).index)
unfolding find_first_divergent_node locate_divergence
find_first-locate oracle replay h = (find_from-locate 0 oracle replay h).1
