-- ===== src/Evolution/Loop/Sequence.antt =====
-- The numbers of the events in the store, and what a call adds to the WAL and the store.
use pads_v.Common.{
  subst, sym, ℕ, String, ◌+◌, ◌<◌, ◌≤◌, ◌≡◌, refl, ap, Bool, true, false, Option, none, some, List,
  [], ◌∷◌, ◌++◌, arith, inl, inr, ◌⊎◌, Option-cases, Bool-cases,
}
use pads_v.Common.Float.{Float}
use pads_v.Evolution.Types.{Candidate, Event, Codec, IsFaithful}
use pads_v.Evolution.Wal.{Entry, Digest, Written, store_append, load_all}
use pads_v.Evolution.File.{File, Lines, fits, write_line_ended, write_part_nothing}
use pads_v.Evolution.Loop.{
  Loop, World, returned, LoopError, is_unstable, evaluate_step, wal_step, event_for, store_step,
  settle, evolve,
}
use pads_v.Evolution.Loop.Decision.{judged}

-- Sequence numbers that only grow, all above `low` and none above `high`.
abbrev pub IsNumbered : {F : Type 0} → ℕ → ℕ → List (Event F) → Type 0
IsNumbered low high [] = low ≤ high
IsNumbered low high (e ∷ es) = (low < e.sequence) × IsNumbered e.sequence high es

IsNumbered-raise :
    {F : Type 0} (low high : ℕ) (es : List (Event F))
    → IsNumbered low high es
    → IsNumbered low (high + 1) es
IsNumbered-raise low high [] h = omega arith
IsNumbered-raise low high (e ∷ es) h = (h.0, IsNumbered-raise e.sequence high es h.1)

IsNumbered-snoc :
    {F : Type 0} (low high : ℕ) (es : List (Event F)) (e : Event F)
    → IsNumbered low high es
    → e.sequence ≡ high + 1
    → IsNumbered low (high + 1) (es ++ e ∷ [])
IsNumbered-snoc low high [] e h s = (omega arith, omega arith)
IsNumbered-snoc low high (x ∷ es) e h s = (h.0, IsNumbered-snoc x.sequence high es e h.1 s)

-- The events of a line that is added are read behind the others, or, where the scanner stops at a
-- line that is too long, not at all.
load_all-snoc :
    {A : Type 0} (codec : Codec A) (xs : Lines) (line : String) (a : A)
    → codec.unmarshal line ≡ some a
    → (load_all codec (xs ++ line ∷ []) ≡ load_all codec xs ++ a ∷ [])
      ⊎ (load_all codec (xs ++ line ∷ []) ≡ load_all codec xs)
unfolding load_all
load_all-snoc codec [] line a read = elim (Bool-cases (fits line)) [
  | inl short ↦ inl (rw (short, read) refl)
  | inr long ↦ inr (rw long refl)
]
load_all-snoc codec (x ∷ xs) line a read = elim (load_all-snoc codec xs line a read) [
  | inl grown ↦ elim (Bool-cases (fits x)) [
    | inl short ↦ inl (elim (Option-cases (codec.unmarshal x)) [
      | inl bad ↦ rw (short, bad, load_all) grown
      | inr (b, good) ↦ rw (short, good, load_all) (ap (λ l. b ∷ l) grown)
    ])
    | inr long ↦ inr (rw (long, load_all) refl)
  ]
  | inr same ↦ inr (ground (arith, same))
]

-- A store whose lines are all ended gets a line at its end, from which the value is read or which the
-- scanner does not reach, or it stays as it was.
abbrev Stored : {A : Type 0} → Codec A → File → A → File → Type 0
Stored codec file a file' =
    (file'.torn ≡ "")
    × ((load_all codec file'.lines ≡ load_all codec file.lines ++ a ∷ [])
        ⊎ (load_all codec file'.lines ≡ load_all codec file.lines))

-- A write is whole where it does not stop within its line.
abbrev pub IsWhole : Written → Type 0
IsWhole short = (short ≡ none) ⊎ (short ≡ some 0)

wrote-Stored :
    {A : Type 0} (codec : Codec A) (short : Written) (file : File) (line : String) (a : A)
    → codec.marshal a ≡ some line
    → codec.unmarshal line ≡ some a
    → file.torn ≡ ""
    → IsWhole short
    → Stored codec file a (store_append codec true short file a).0
unfolding store_append
wrote-Stored codec short file line a encoded read ended (inl whole) =
    rw (encoded, whole)
      (subst (λ f. Stored codec file a f) (sym (write_line_ended line file ended))
        (refl, load_all-snoc codec file.lines line a read))
wrote-Stored codec short file line a encoded read ended (inr whole) =
    rw (encoded, whole)
      (subst (λ f. Stored codec file a f) (sym (write_part_nothing line file ended))
        (ended, inr refl))

store_append-Stored :
    {A : Type 0} (codec : Codec A) (opened : Bool) (short : Written) (file : File) (a : A)
    → IsFaithful codec
    → file.torn ≡ ""
    → IsWhole short
    → Stored codec file a (store_append codec opened short file a).0
unfolding store_append
store_append-Stored codec false short file a faithful ended whole = (ended, inr refl)
store_append-Stored codec true short file a faithful ended whole =
    elim (Option-cases (codec.marshal a)) [
      | inl refused ↦ rw refused (ended, inr refl)
      | inr (line, encoded) ↦
          wrote-Stored codec short file line a encoded (faithful.read_back a line encoded) ended
            whole
    ]

module _ (fl : Float) (entries : Codec (Entry fl.F)) (events : Codec (Event fl.F))
    (digest : Digest fl.F) (io : World) where
  open fl use {F}

  -- Every line of a file is ended, and the events that are read from it are numbered upwards, none
  -- above `high`.
  abbrev pub IsFileNumbered : ℕ → File → Type 0
  IsFileNumbered high file = (file.torn ≡ "") × IsNumbered 0 high (load_all events file.lines)

  -- The file of the store, if there is one, is numbered, and nothing in it passes the loop's counter.
  abbrev pub IsAudited : Loop F → Type 0
  IsAudited l = elim l.store [ none ↦ Unit | some file ↦ IsFileNumbered l.sequence file ]

  -- The same, of a store that is known to be there.
  abbrev StoreNumbered : Loop F → Type 0
  StoreNumbered l = (file : File) → l.store ≡ some file → IsFileNumbered l.sequence file

  kept_by_wal :
      (l : Loop F) (candidate current : Candidate) (weight : F)
      → ((wal_step fl entries events digest io l candidate current weight).store ≡ l.store)
        × ((wal_step fl entries events digest io l candidate current weight).sequence ≡ l.sequence)
  unfolding wal_step
  kept_by_wal l candidate current weight = (ground arith, ground arith)

  kept_by_evaluation :
      (l : Loop F) (candidate current : Candidate) (weight : F)
      → ((evaluate_step fl l candidate current weight).0.store ≡ l.store)
        × ((evaluate_step fl l candidate current weight).0.sequence ≡ l.sequence)
  unfolding evaluate_step
  kept_by_evaluation l candidate current weight = (ground arith, ground arith)

  store_step_numbered :
      (l : Loop F) (high : ℕ) (ev : Event F) (accepted : Bool) {l' : Loop F} {b : Bool}
      {failed : Option LoopError}
      → IsFaithful events
      → IsWhole io.store_written
      → l.sequence ≡ high + 1
      → ev.sequence ≡ high + 1
      → ((file : File) → l.store ≡ some file → IsFileNumbered high file)
      → store_step fl entries events digest io l ev accepted ≡ returned l' b failed
      → StoreNumbered l'
  unfolding store_step
  store_step_numbered l high ev accepted {l'} faithful whole e s audited h file' opened =
      elim (Option-cases l.store) [
        | inl nil ↦ absurd (ground arith)
        | inr (file, held) ↦
            let r = store_append events io.store_opened io.store_written file ev in
            let held_now : r.0 ≡ file' = ground arith in
            let counted : l'.sequence ≡ high + 1 = ground arith in
            let (ended, numbered) = audited file held in
            let (ended', stored) =
              store_append-Stored events io.store_opened io.store_written file ev faithful ended
                whole in
            rw (counted, ← held_now)
              (
                ended',
                elim stored [
                  | inl loaded ↦
                      rw loaded (IsNumbered-snoc 0 high (load_all events file.lines) ev numbered s)
                  | inr same ↦
                      rw same (IsNumbered-raise 0 high (load_all events file.lines) numbered)
                ],
              )
      ]

  settle_numbered :
      (l : Loop F) (accepted : Bool) (candidate current : Candidate) (weight : F) {l' : Loop F}
      {b : Bool} {failed : Option LoopError}
      → IsFaithful events
      → IsWhole io.store_written
      → StoreNumbered l
      → settle fl entries events digest io l accepted candidate current weight
        ≡ returned l' b failed
      → StoreNumbered l'
  unfolding settle
  settle_numbered l accepted candidate current weight {l'} faithful whole audited h =
      elim (Bool-cases (is_unstable fl l.detector)) [
        | inl shaky ↦ let same : l' ≡ l = ground arith in rw same audited
        | inr calm ↦
            let next : Loop F = record l { sequence = l.sequence + 1 } in
            store_step_numbered next l.sequence
              (event_for fl entries events digest io next accepted candidate current weight)
              accepted faithful whole refl refl audited (rw calm at h)
      ]

  evolve_numbered :
      (l : Loop F) (candidate current : Candidate) (weight : F) {l' : Loop F} {accepted : Bool}
      {failed : Option LoopError}
      → IsFaithful events
      → IsWhole io.store_written
      → StoreNumbered l
      → evolve fl entries events digest io l candidate current weight ≡ returned l' accepted failed
      → StoreNumbered l'
  unfolding evolve
  evolve_numbered l candidate current weight faithful whole audited h =
      let (evaluated, result, accepted) = evaluate_step fl l candidate current weight in
      let first = kept_by_evaluation l candidate current weight in
      let second = kept_by_wal evaluated candidate current weight in
      settle_numbered (judged fl entries events digest io l candidate current weight) accepted
        candidate current weight faithful whole
        (λ file opened. rw (second.1, first.1) (audited file (cc (first.0, second.0, opened)))) h

  audited_store : (l : Loop F) → IsAudited l → StoreNumbered l
  audited_store l audited file opened =
      subst (λ o. elim o as (λ _. Type 0) [ none ↦ Unit | some f ↦ IsFileNumbered l.sequence f ])
        opened audited

  numbered_store : (l : Loop F) → StoreNumbered l → IsAudited l
  numbered_store l numbered = elim (Option-cases l.store) [
    | inl nil ↦ rw nil tt
    | inr (file, held) ↦ rw held (numbered file held)
  ]

  -- With a codec that reads back what it writes, and a write to the store that does not stop within its
  -- line, an evolution that returns keeps the lines of the store ended and the numbers of the events
  -- that are read from it increasing and none above the counter of the loop, if they were so before.
  pub evolve-IsAudited :
      (l : Loop F) (candidate current : Candidate) (weight : F) {l' : Loop F} {accepted : Bool}
      {failed : Option LoopError}
      → IsFaithful events
      → IsWhole io.store_written
      → IsAudited l
      → evolve fl entries events digest io l candidate current weight ≡ returned l' accepted failed
      → IsAudited l'
  evolve-IsAudited l candidate current weight {l'} faithful whole audited h =
      numbered_store l'
        (evolve_numbered l candidate current weight faithful whole (audited_store l audited) h)
