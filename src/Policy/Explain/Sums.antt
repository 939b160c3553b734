-- ===== src/Policy/Explain/Sums.antt =====
-- What the loop of BuildTrace over the sorted gates adds up, beside that of the engine over the gates
-- with the default configuration.
use Prim.Native.String.{compare, ◌++◌ as str_append}
use text.Mathlib.Text.{is_lt}
use pads_v.Common.{
  ℕ, ◌+◌, ◌≡◌, refl, ap, sym, ◌∙◌, String, Bool, true, false, ◌||◌, List, [], ◌∷◌, ◌++◌, arith,
  if◌then◌else◌, ◌==◌, Bool-cases, inl, inr,
}
use pads_v.Common.Float.{Float}
use pads_v.Common.Int.{pos, ◌+ℤ◌, +ℤ-pos}
use pads_v.Policy.Engine.{
  GateResult, is_set, weight_of, default_tuned_config, Tally, tally_gate, tally_all, no_tally,
}
use pads_v.Policy.Explain.{
  trace_weight, GateSums, sum_gate, sum_gates, sort_gates, insert_gate, trace_hard_fails, no_sums,
}
use pads_v.Common.Table.{lookup}

-- The weight of a gate, as a number.
abbrev weight : String → ℕ
weight name =
    if "syntax_gate" == name
    then 30
    else if "semantic_gate" == name
    then 20
    else if "execution_gate" == name
    then 25
    else if "determinism_gate" == name
    then 25
    else 10

trace_weight_lem : (name : String) → trace_weight name ≡ pos (weight name)
unfolding trace_weight lookup
trace_weight_lem name = ground arith

module _ (fl : Float) where
  weight_of-default_tuned_config :
      (name : String) → weight_of fl (default_tuned_config fl) name ≡ pos (weight name)
  unfolding weight_of lookup
  weight_of-default_tuned_config name = ground arith

abbrev sums : ℕ → ℕ → Bool → List String → GateSums
sums total earned hard_fail failed = record {
  total_weight = pos total;
  earned_weight = pos earned;
  hard_fail = hard_fail;
  failed = failed;
}

abbrev tally : ℕ → ℕ → Bool → List String → Tally
tally total earned hard_fail reasoning = record {
  total_weight = pos total;
  earned_weight = pos earned;
  hard_fail = hard_fail;
  reasoning = reasoning;
}

abbrev earned_by : GateResult → ℕ
earned_by g = if g.passed then weight g.name else 0

abbrev fails_hard : GateResult → Bool
fails_hard g = if g.passed then false else is_set (lookup g.name trace_hard_fails)

abbrev total : List GateResult → ℕ
total [] = 0
total (g ∷ gates) = weight g.name + total gates

abbrev earned : List GateResult → ℕ
earned [] = 0
earned (g ∷ gates) = earned_by g + earned gates

abbrev any_fails_hard : List GateResult → Bool
any_fails_hard [] = false
any_fails_hard (g ∷ gates) = fails_hard g || any_fails_hard gates

pos_plus : (a : ℕ) (name : String) → pos a +ℤ trace_weight name ≡ pos (a + weight name)
pos_plus a name = ap (λ w. pos a +ℤ w) (trace_weight_lem name) ∙ +ℤ-pos a (weight name)

or_assoc : (a b c : Bool) → (a || b) || c ≡ a || (b || c)
or_assoc true b c = refl
or_assoc false b c = refl

or_false : (a : Bool) → a ≡ (a || false)
or_false true = refl
or_false false = refl

or_swap : (a b c : Bool) → a || (b || c) ≡ b || (a || c)
or_swap true true c = refl
or_swap true false c = refl
or_swap false b c = refl

sum_gate-sums :
    (a b : ℕ) (h : Bool) (f : List String) (g : GateResult)
    → (f' : List String) × (sum_gate (sums a b h f) g
        ≡ sums (a + weight g.name) (b + earned_by g) (h || fails_hard g) f')
unfolding sum_gate
sum_gate-sums a b h f g = elim (Bool-cases g.passed) [
  | inl e ↦ (
    f,
    rw (e, pos_plus a g.name, pos_plus b g.name)
        (ap (λ hard. sums (a + weight g.name) (b + weight g.name) hard f) (or_false h)),
  )
  | inr e ↦ (
    f ++ g.name ∷ [],
    rw (e, pos_plus a g.name)
        (ap
          (λ n.
            sums (a + weight g.name) n (h || is_set (lookup g.name trace_hard_fails))
              (f ++ g.name ∷ []))
          (omega arith)),
  )
]

plus_weight_of :
    (fl : Float) (a : ℕ) (name : String)
    → pos a +ℤ weight_of fl (default_tuned_config fl) name ≡ pos (a + weight name)
plus_weight_of fl a name =
    ap (λ w. pos a +ℤ w) (weight_of-default_tuned_config fl name) ∙ +ℤ-pos a (weight name)

tally_gate-tally :
    (fl : Float) (a b : ℕ) (h : Bool) (f : List String) (g : GateResult)
    → (f' : List String) × (tally_gate fl (default_tuned_config fl) (tally a b h f) g
        ≡ tally (a + weight g.name) (b + earned_by g) (h || fails_hard g) f')
unfolding tally_gate
tally_gate-tally fl a b h f g = elim (Bool-cases g.passed) [
  | inl e ↦ (
    f,
    rw (e, plus_weight_of fl a g.name, plus_weight_of fl b g.name)
        (ap (λ hard. tally (a + weight g.name) (b + weight g.name) hard f) (or_false h)),
  )
  | inr e ↦ (
    f ++ str_append g.name " failed" ∷ [],
    rw (e, plus_weight_of fl a g.name)
        (ap
          (λ n.
            tally (a + weight g.name) n (h || is_set (lookup g.name trace_hard_fails))
              (f ++ str_append g.name " failed" ∷ []))
          (omega arith)),
  )
]

-- A loop over the gates that adds them up.
module _ {S : Type 0} (made : ℕ → ℕ → Bool → List String → S) (one : S → GateResult → S)
    (all : S → List GateResult → S) (all-nil : (s : S) → all s [] ≡ s)
    (all-cons : (s : S) (g : GateResult) (gates : List GateResult)
      → all s (g ∷ gates) ≡ all (one s g) gates)
    (one-made : (a b : ℕ) (h : Bool) (f : List String) (g : GateResult)
      → (f' : List String) × (one (made a b h f) g
          ≡ made (a + weight g.name) (b + earned_by g) (h || fails_hard g) f')) where
  made-path :
      {a a' b b' : ℕ} {h h' : Bool} (f : List String)
      → a ≡ a'
      → b ≡ b'
      → h ≡ h'
      → made a b h f ≡ made a' b' h' f
  made-path f p q r = cc (p, q, r)

  all-made :
      (gates : List GateResult) (a b : ℕ) (h : Bool) (f : List String)
      → (f' : List String) × (all (made a b h f) gates
          ≡ made (a + total gates) (b + earned gates) (h || any_fails_hard gates) f')
  all-made [] a b h f =
      (f, all-nil (made a b h f) ∙ made-path f (omega arith) (omega arith) (or_false h))
  all-made (g ∷ gates) a b h f =
      let (f', first) = one-made a b h f g in
      let (f'', rest) =
        all-made gates (a + weight g.name) (b + earned_by g) (h || fails_hard g) f' in
      (
        f'',
        all-cons (made a b h f) g gates
            ∙ ap (λ s. all s gates) first
            ∙ rest
            ∙ made-path f'' (omega arith) (omega arith)
                (or_assoc h (fails_hard g) (any_fails_hard gates)),
      )

sum_gates-no_sums :
    (gates : List GateResult)
    → (f : List String) × (sum_gates no_sums gates
        ≡ sums (0 + total gates) (0 + earned gates) (any_fails_hard gates) f)
unfolding sum_gates
sum_gates-no_sums gates =
    all-made sums sum_gate sum_gates (λ s. refl) (λ s g gates. refl) sum_gate-sums gates 0 0 false
      []

tally_all-no_tally :
    (fl : Float) (gates : List GateResult)
    → (f : List String) × (tally_all fl (default_tuned_config fl) no_tally gates
        ≡ tally (0 + total gates) (0 + earned gates) (any_fails_hard gates) f)
unfolding tally_all
tally_all-no_tally fl gates =
    all-made tally (tally_gate fl (default_tuned_config fl))
      (tally_all fl (default_tuned_config fl)) (λ s. refl) (λ s g gates. refl) (tally_gate-tally fl)
      gates 0 0 false []

-- Sorting leaves the sums.
total-insert_gate :
    (g : GateResult) (gates : List GateResult)
    → (total (insert_gate g gates) ≡ weight g.name + total gates)
      × (earned (insert_gate g gates) ≡ earned_by g + earned gates)
      × (any_fails_hard (insert_gate g gates) ≡ fails_hard g || any_fails_hard gates)
unfolding insert_gate
total-insert_gate g [] = (refl, refl, refl)
total-insert_gate g (h ∷ gates) =
    let (t, e, f) = total-insert_gate g gates in
    elim (Bool-cases (is_lt (compare h.name g.name))) [
      | inl below ↦ rw below (
        omega (arith, t),
        omega (arith, e),
        ap (λ b. fails_hard h || b) f
            ∙ or_swap (fails_hard h) (fails_hard g) (any_fails_hard gates),
      )
      | inr above ↦ rw above (refl, refl, refl)
    ]

total-sort_gates :
    (gates : List GateResult)
    → (total (sort_gates gates) ≡ total gates)
      × (earned (sort_gates gates) ≡ earned gates)
      × (any_fails_hard (sort_gates gates) ≡ any_fails_hard gates)
unfolding sort_gates
total-sort_gates [] = (refl, refl, refl)
total-sort_gates (g ∷ gates) =
    let (t, e, f) = total-insert_gate g (sort_gates gates) in
    let (t', e', f') = total-sort_gates gates in
    (omega (arith, t, t'), omega (arith, e, e'), f ∙ ap (λ b. fails_hard g || b) f')

-- What both loops add up, in terms of the gates alone.
pub sums-sort_gates :
    (fl : Float) (gates : List GateResult)
    → let t = tally_all fl (default_tuned_config fl) no_tally gates in
      let s = sum_gates no_sums (sort_gates gates) in
      (s.total_weight ≡ t.total_weight)
      × (s.earned_weight ≡ t.earned_weight)
      × (s.hard_fail ≡ t.hard_fail)
sums-sort_gates fl gates =
    let (t, e, h) = total-sort_gates gates in
    let (f, summed) = sum_gates-no_sums (sort_gates gates) in
    let (f', tallied) = tally_all-no_tally fl gates in
    (
      ap (λ s. s.total_weight) summed
          ∙ ap (λ n. pos (0 + n)) t
          ∙ sym (ap (λ t. t.total_weight) tallied),
      ap (λ s. s.earned_weight) summed
          ∙ ap (λ n. pos (0 + n)) e
          ∙ sym (ap (λ t. t.earned_weight) tallied),
      ap (λ s. s.hard_fail) summed ∙ h ∙ sym (ap (λ t. t.hard_fail) tallied),
    )
