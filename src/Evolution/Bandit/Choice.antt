-- ===== src/Evolution/Bandit/Choice.antt =====
-- Which arms are selected.
use pads_v.Common.{
  ℕ, zero, suc, ◌<◌, ◌≡◌, ◌≢◌, refl, String, List, [], ◌∷◌, arith, eqb, length, Bool-cases, inl,
  inr, ◌⊎◌,
}
use pads_v.Common.Count.{Has, ==_self, count-keep}
use pads_v.Common.Float.{Float}
use pads_v.Common.Int.{negsuc}
use pads_v.Evolution.Bandit.{
  UcbSelector, ucb_value, count_of, best_from, unpulled, pick, exploit, select,
}

module _ (fl : Float) where
  open fl use {F}

  pick-Has : (names : List String) (i : ℕ) → i < length names → Has names (pick fl names i)
  pick-Has [] i h = absurd (omega arith)
  pick-Has (x ∷ names) zero h = ground (arith, ==_self x)
  pick-Has (x ∷ names) (suc i) h = omega (arith, pick-Has names i (omega arith))

  best_from-Has :
      (u : UcbSelector F) (best : String) (value : F) (names among : List String)
      → Has among best
      → ((name : String) → Has names name → Has among name)
      → Has among (best_from fl u best value names)
  unfolding best_from
  best_from-Has u best value [] among held all = held
  best_from-Has u best value (name ∷ names) among held all =
      let later : (other : String) → Has names other → Has among other =
        λ other h. all other (omega arith) in
      elim (Bool-cases (fl.lt value (ucb_value fl u name))) [
        | inl better ↦
            rw (better, best_from)
              (best_from-Has u name (ucb_value fl u name) names among
                (all name (ground (arith, ==_self name))) later)
        | inr same ↦ rw (same, best_from) (best_from-Has u best value names among held later)
      ]

  exploit-Has :
      (u : UcbSelector F) (names : List String) → names ≢ [] → Has names (exploit fl u names)
  exploit-Has u [] h = absurd (h refl)
  exploit-Has u (first ∷ names) h =
      best_from-Has u first (fl.of_int (negsuc 0)) (first ∷ names) (first ∷ names)
        (ground (arith, ==_self first)) (λ name held. held)

  -- With at least one arm and a random source that keeps below its bound, the selected arm is a
  -- registered one, and either every arm was pulled or the selected one never was.
  pub select-Has :
      (intn : ℕ → ℕ) (u : UcbSelector F)
      → u.names ≢ []
      → ((n : ℕ) → 0 < n → intn n < n)
      → Has u.names (select fl intn u)
        × ((length (unpulled fl u) ≡ 0) ⊎ Has (unpulled fl u) (select fl intn u))
  unfolding select
  select-Has intn u nonempty below = elim (Bool-cases (eqb (length (unpulled fl u)) 0)) [
    | inl none_left ↦ rw (none_left, select) (exploit-Has u u.names nonempty, inl (ground arith))
    | inr some_left ↦
        let chosen =
          pick-Has (unpulled fl u) (intn (length (unpulled fl u)))
            (below (length (unpulled fl u)) (ground arith)) in
        let among =
          count-keep (λ name. eqb (count_of u name) 0)
            (pick fl (unpulled fl u) (intn (length (unpulled fl u)))) u.names in
        rw (some_left, select) (ground (arith, chosen, among), inr chosen)
  ]
