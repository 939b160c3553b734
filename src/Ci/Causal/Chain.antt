-- ===== src/Ci/Causal/Chain.antt =====
-- The chain of parents that the instrumentation makes.
use mathlib.Core.Option.{some-injective}
use pads_v.Common.{
  ℕ, zero, suc, ◌+◌, ◌≡◌, refl, sym, ap₂, ◌∙◌, String, Option, none, some, List, [], ◌∷◌, arith,
  if◌then◌else◌, ◌==◌, get_elem?,
}
use pads_v.Dag.Nodes.{CanonicalEvent}
use pads_v.Ci.Causal.{causal_id_of, instrument_event, instrument_from, instrument_events}

-- The identifier of an event, for the event after it, if both are of the same job.
abbrev pub link : (ℕ → String) → ℕ → Option CanonicalEvent → Option CanonicalEvent → String
link show i (some p) (some e) = if p.job_id == e.job_id then causal_id_of show i p else ""
link show i (some p) none = ""
link show i none e = ""

-- The parent of the event at an index: the one just before it, where that is of the same job.
abbrev parent_at : (ℕ → String) → List CanonicalEvent → ℕ → String
parent_at show events zero = ""
parent_at show events (suc i) = link show i (get_elem? events i) (get_elem? events (suc i))

-- The same, in events that stand after others.
abbrev parent_from :
    (ℕ → String) → ℕ → Option String → String → List CanonicalEvent → ℕ → CanonicalEvent → String
parent_from show i previous last_causal_id events zero e = elim previous [
  | none ↦ ""
  | some job_id ↦ if job_id == e.job_id then last_causal_id else ""
]
parent_from show i previous last_causal_id events (suc k) e =
    link show (i + k) (get_elem? events k) (some e)

instrument_from-get_elem? :
    (show : ℕ → String) (i : ℕ) (previous : Option String) (last_causal_id : String)
    (events : List CanonicalEvent) (k : ℕ) (e : CanonicalEvent)
    → get_elem? events k ≡ some e
    → get_elem? (instrument_from show i previous last_causal_id events) k
      ≡ some
          (instrument_event show (i + k) (parent_from show i previous last_causal_id events k e) e)
unfolding instrument_from
instrument_from-get_elem? show i previous last_causal_id [] k e h = absurd (cc)
instrument_from-get_elem? show i previous last_causal_id (x ∷ events) zero e h =
    let here : i ≡ i + 0 = omega arith in
    ap₂
      (λ n a.
        some
          (instrument_event show n (parent_from show i previous last_causal_id (x ∷ events) 0 a) a))
      here (some-injective x e h)
instrument_from-get_elem? show i previous last_causal_id (x ∷ events) (suc zero) e h =
    let next : suc i + 0 ≡ i + 1 = omega arith in
    let here : i ≡ i + 0 = omega arith in
    instrument_from-get_elem? show (suc i) (some x.job_id) (causal_id_of show i x) events 0 e h
    ∙ ap₂ (λ n m. some (instrument_event show n (link show m (some x) (some e)) e)) next here
instrument_from-get_elem? show i previous last_causal_id (x ∷ events) (suc (suc k)) e h =
    let next : suc i + suc k ≡ i + suc (suc k) = omega arith in
    let here : suc i + k ≡ i + suc k = omega arith in
    instrument_from-get_elem? show (suc i) (some x.job_id) (causal_id_of show i x) events (suc k) e
      h
    ∙ ap₂ (λ n m. some (instrument_event show n (link show m (get_elem? events k) (some e)) e)) next
        here

parent_from-parent_at :
    (show : ℕ → String) (events : List CanonicalEvent) (k : ℕ) (e : CanonicalEvent)
    → get_elem? events k ≡ some e
    → parent_from show 0 none "" events k e ≡ parent_at show events k
parent_from-parent_at show events zero e h = refl
parent_from-parent_at show events (suc k) e h =
    let here : 0 + k ≡ k = omega arith in
    ap₂ (λ n a. link show n (get_elem? events k) a) here (sym h)

-- The event at each index is instrumented with that index as its sequence number, and has as its
-- parent the identifier of the event just before it where that is of the same job, else none.
instrument_events-get_elem? :
    (show : ℕ → String) (events : List CanonicalEvent) (k : ℕ) (e : CanonicalEvent)
    → get_elem? events k ≡ some e
    → get_elem? (instrument_events show events) k
      ≡ some (instrument_event show k (parent_at show events k) e)
unfolding instrument_events
instrument_events-get_elem? show events k e h =
    let here : 0 + k ≡ k = omega arith in
    instrument_from-get_elem? show 0 none "" events k e h
    ∙ ap₂ (λ n p. some (instrument_event show n p e)) here (parent_from-parent_at show events k e h)
