-- ===== src/Policy/Log/Recovered.antt =====
-- What is read back from the log of decisions.
use pads_v.Common.{
  ◌≡◌, refl, ap, String, Bool, true, false, none, some, List, [], ◌∷◌, ◌++◌, arith, ◌==◌,
  Bool-cases, inl, inr, Option-cases, ok,
}
use pads_v.Evolution.Types.{Codec, IsFaithful}
use pads_v.Policy.Log.{PolicyEvent, append_decision, parse_lines, read_all}

module _ {F : Type 0} (codec : Codec (PolicyEvent F)) where
  parse_lines-append :
      (lines : List String) (line : String) (e : PolicyEvent F)
      → codec.unmarshal line ≡ some e
      → (line == "") ≡ false
      → parse_lines codec (lines ++ line ∷ []) ≡ parse_lines codec lines ++ e ∷ []
  unfolding parse_lines
  parse_lines-append [] line e read filled = rw (filled, read) refl
  parse_lines-append (first ∷ lines) line e read filled =
      let rest = parse_lines-append lines line e read filled in
      elim (Bool-cases (first == "")) [
        | inl empty ↦ rw (empty, parse_lines) rest
        | inr full ↦ elim (Option-cases (codec.unmarshal first)) [
          | inl corrupt ↦ rw (full, corrupt, parse_lines) rest
          | inr (d, parsed) ↦ rw (full, parsed, parse_lines) (ap (λ l. d ∷ l) rest)
        ]
      ]

  -- With a codec that reads back what it writes and writes no empty line, an event that is appended
  -- without an error is read back behind those that were read before, however many lines of the file
  -- are corrupted.
  pub read_all-append_decision :
      IsFaithful codec
      → ((e : PolicyEvent F) (line : String) → codec.marshal e ≡ some line → (line == "") ≡ false)
      → (opens writes : Bool) (lines : List String) (e : PolicyEvent F)
      → (append_decision codec opens writes (some lines) e).1 ≡ none
      → read_all codec true (append_decision codec opens writes (some lines) e).0
        ≡ ok (parse_lines codec lines ++ e ∷ [])
  unfolding append_decision read_all
  read_all-append_decision faithful filled false writes lines e h = absurd (cc)
  read_all-append_decision faithful filled true false lines e h =
      elim (Option-cases (codec.marshal e)) [
        | inl refused ↦ absurd (ground (arith, refused))
        | inr (line, written) ↦ absurd (ground (arith, written))
      ]
  read_all-append_decision faithful filled true true lines e h =
      elim (Option-cases (codec.marshal e)) [
        | inl refused ↦ absurd (ground (arith, refused))
        | inr (line, written) ↦
            rw (written, append_decision)
              (ap ok (
                parse_lines-append lines line e (faithful.read_back e line written)
                  (filled e line written)))
      ]
