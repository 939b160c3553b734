-- ===== src/Policy/Change/Validated.antt =====
-- The cache of the validator, and what its proposals say.
use pads_v.Common.{
  ℕ, ◌≡◌, refl, ap, subst, sym, ◌∙◌, String, Bool, true, false, none, some, List, [], ◌∷◌, arith,
  Bool-cases, inl, inr, Option-cases, ◌==◌, eq_iff,
}
use pads_v.Common.Float.{Float}
use pads_v.Common.Table.{lookup, insert, lookup-insert_self}
use pads_v.Policy.Config.{TunedConfig}
use pads_v.Policy.ConfigStore.{ConfigStore}
use pads_v.Policy.Shadow.{GateInput, Comparison, Hashing, evaluate_shadow}
use pads_v.Policy.Change.{
  Proposal, Validator, Proposals, proposal_key, validate, propose, reason_for, accepted_text,
}

module _ (fl : Float) where
  open fl use {F}

  -- A proposal says that it is accepted exactly when it is.
  abbrev pub IsHonest : Proposal F → Type 0
  IsHonest p = p.accepted ≡ (p.reason == accepted_text fl)

  reason_for-IsHonest :
      (v : Validator F) (c : Comparison F) (gain confidence : F) (accepted : Bool)
      → accepted ≡ (reason_for fl v c gain confidence accepted == accepted_text fl)
  unfolding reason_for
  reason_for-IsHonest v c gain confidence true = ground arith
  reason_for-IsHonest v c gain confidence false = elim (Bool-cases c.accepted) [
    | inr e ↦ rw (e, reason_for) refl
    | inl e ↦ elim (Bool-cases (fl.lt gain v.min_gain_ratio)) [
      | inl small ↦ rw (e, small, reason_for) refl
      | inr enough ↦ elim (Bool-cases (fl.lt confidence v.min_confidence)) [
        | inl low ↦ rw (e, enough, low, reason_for) refl
        | inr high ↦ rw (e, enough, high, reason_for) refl
      ]
    ]
  ]

  -- Each proposal of a cache stands under its own identifier and is honest.
  abbrev pub IsSound : Proposals F → Type 0
  IsSound [] = Unit
  IsSound ((key, p) ∷ rest) = ((p.id ≡ key) × IsHonest p) × IsSound rest

  insert-IsSound :
      (key : String) (p : Proposal F) (cache : Proposals F)
      → p.id ≡ key
      → IsHonest p
      → IsSound cache
      → IsSound (insert key p cache)
  unfolding insert
  insert-IsSound key p [] named honest sound = ((named, honest), sound)
  insert-IsSound key p ((other, q) ∷ rest) named honest (first, sound) =
      elim (Bool-cases (other == key)) [
        | inl e ↦ rw (e, insert) ((named, honest), sound)
        | inr e ↦ rw (e, insert) (first, insert-IsSound key p rest named honest sound)
      ]

  lookup-IsSound :
      (key : String) (cache : Proposals F) (p : Proposal F)
      → IsSound cache
      → lookup key cache ≡ some p
      → (p.id ≡ key) × IsHonest p
  unfolding lookup
  lookup-IsSound key [] p sound h = absurd (cc)
  lookup-IsSound key ((other, q) ∷ rest) p ((named, honest), sound) h =
      elim (Bool-cases (other == key)) [
        | inl e ↦
            let same : q ≡ p = ground (arith, h, e) in
            let equal = (eq_iff other key).0 e in
            (ap (λ r. r.id) (sym same) ∙ named ∙ equal, subst IsHonest same honest)
        | inr e ↦ lookup-IsSound key rest p sound (ground (arith, h, e))
      ]

  -- What `validate` makes where the key is new.
  abbrev fresh :
      Hashing F
      → ℕ
      → Validator F
      → TunedConfig F
      → TunedConfig F
      → List GateInput
      → ConfigStore F
      → Proposal F
  fresh h now v current candidate inputs engine =
      propose fl now v (proposal_key fl h current candidate inputs) current candidate inputs
        (evaluate_shadow fl h v.evaluator candidate inputs engine).0

  validate-hit :
      (h : Hashing F) (now : ℕ) (v : Validator F) (current candidate : TunedConfig F)
      (inputs : List GateInput) (engine : ConfigStore F) (p : Proposal F)
      → lookup (proposal_key fl h current candidate inputs) v.cache ≡ some p
      → validate fl h now v current candidate inputs engine ≡ (p, v)
  unfolding validate
  validate-hit h now v current candidate inputs engine p e = rw (e, validate) refl

  validate-miss :
      (h : Hashing F) (now : ℕ) (v : Validator F) (current candidate : TunedConfig F)
      (inputs : List GateInput) (engine : ConfigStore F)
      → lookup (proposal_key fl h current candidate inputs) v.cache ≡ none
      → let p = fresh h now v current candidate inputs engine in
        validate fl h now v current candidate inputs engine ≡ (
          p,
          record v {
            evaluator = (evaluate_shadow fl h v.evaluator candidate inputs engine).1;
            cache = insert (proposal_key fl h current candidate inputs) p v.cache;
          },
        )
  unfolding validate
  validate-miss h now v current candidate inputs engine e = rw (e, validate) refl

  fresh-IsHonest :
      (h : Hashing F) (now : ℕ) (v : Validator F) (current candidate : TunedConfig F)
      (inputs : List GateInput) (engine : ConfigStore F)
      → let p = fresh h now v current candidate inputs engine in
        (p.id ≡ proposal_key fl h current candidate inputs) × IsHonest p
  unfolding propose
  fresh-IsHonest h now v current candidate inputs engine =
      let c = (evaluate_shadow fl h v.evaluator candidate inputs engine).0 in
      (refl, reason_for-IsHonest v c _ _ _)

  -- On a validator in whose cache each proposal stands under its own identifier and calls itself
  -- accepted in its reason exactly when it is, Validate keeps the cache so; the proposal that it
  -- returns has the key of the question as its identifier and is honest too; and the same question
  -- asked again, at any later time and with any engine, returns that proposal and changes nothing.
  pub validate-IsSound :
      (h : Hashing F) (now later : ℕ) (v : Validator F) (current candidate : TunedConfig F)
      (inputs : List GateInput) (engine engine' : ConfigStore F)
      → IsSound v.cache
      → let (p, v') = validate fl h now v current candidate inputs engine in
        IsSound v'.cache
        × (p.id ≡ proposal_key fl h current candidate inputs)
        × IsHonest p
        × (validate fl h later v' current candidate inputs engine' ≡ (p, v'))
  validate-IsSound h now later v current candidate inputs engine engine' sound =
      let key = proposal_key fl h current candidate inputs in
      let p = fresh h now v current candidate inputs engine in
      elim (Option-cases (lookup key v.cache)) [
        | inl e ↦
            let (named, honest) = fresh-IsHonest h now v current candidate inputs engine in
            rw (validate-miss h now v current candidate inputs engine e) (
              insert-IsSound key p v.cache named honest sound,
              named,
              honest,
              validate-hit h later _ current candidate inputs engine' p
                  (lookup-insert_self key p v.cache),
            )
        | inr (q, e) ↦
            let (named, honest) = lookup-IsSound key v.cache q sound e in
            rw (validate-hit h now v current candidate inputs engine q e)
              (sound, named, honest, validate-hit h later v current candidate inputs engine' q e)
      ]
