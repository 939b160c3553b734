-- ===== src/Agent/Pool/Best.antt =====
-- The best result of the pool.
use pads_v.Common.{
  ◌≡◌, refl, subst, ◌⊎◌, true, false, Option, List, [], ◌∷◌, arith, Bool-cases, inl, inr, All,
  List-cases, ok, err, ◌==◌,
}
use pads_v.Evolution.AgentLoop.{AgentResult}
use pads_v.Agent.Plans.{Task, task_fix_broken}
use pads_v.Agent.Pool.{
  PooledAgent, is_better, best_from, valid_results, suggest_from_pool, no_result,
}

module _ {F : Type 0} where
  -- Not to be better is transitive, as is to be better.
  is_better_trans :
      (a b c : AgentResult F)
      → is_better a b ≡ false
      → is_better b c ≡ false
      → is_better a c ≡ false
  is_better_trans a b c h k = ground (arith, h, k)

  is_better_asym : (a b : AgentResult F) → is_better a b ≡ true → is_better b a ≡ false
  is_better_asym a b h = ground (arith, h)

  is_better_self : (a : AgentResult F) → is_better a a ≡ false
  is_better_self a = ground arith

  abbrev Loses : AgentResult F → AgentResult F → Type 0
  Loses best r = is_better r best ≡ false

  -- The result is one of a list.
  abbrev pub Among : AgentResult F → List (AgentResult F) → Type 0
  Among r [] = ⊥
  Among r (x ∷ xs) = (r ≡ x) ⊎ Among r xs

  best_from-start :
      (best : AgentResult F) (results : List (AgentResult F)) → Loses (best_from best results) best
  unfolding best_from
  best_from-start best [] = is_better_self best
  best_from-start best (r ∷ results) = elim (Bool-cases (is_better r best)) [
    | inl e ↦
        rw (e, best_from)
          (is_better_trans best r (best_from r results) (is_better_asym r best e)
            (best_from-start r results))
    | inr e ↦ rw (e, best_from) (best_from-start best results)
  ]

  best_from-better :
      (best r : AgentResult F) (results : List (AgentResult F))
      → is_better r best ≡ true
      → best_from r results ≡ best_from best (r ∷ results)
  unfolding best_from
  best_from-better best r results e = rw e refl

  best_from-kept :
      (best r : AgentResult F) (results : List (AgentResult F))
      → is_better r best ≡ false
      → best_from best results ≡ best_from best (r ∷ results)
  unfolding best_from
  best_from-kept best r results e = rw e refl

  best_from-Loses :
      (best : AgentResult F) (results : List (AgentResult F))
      → All (Loses (best_from best results)) results
  best_from-Loses best [] = tt
  best_from-Loses best (r ∷ results) = elim (Bool-cases (is_better r best)) [
    | inl e ↦
        subst (λ b. All (Loses b) (r ∷ results)) (best_from-better best r results e)
          (best_from-start r results, best_from-Loses r results)
    | inr e ↦
        subst (λ b. All (Loses b) (r ∷ results)) (best_from-kept best r results e)
          (
            is_better_trans r best (best_from best results) e (best_from-start best results),
            best_from-Loses best results,
          )
  ]

  best_from-Among :
      (best : AgentResult F) (results : List (AgentResult F))
      → Among (best_from best results) (best ∷ results)
  unfolding best_from
  best_from-Among best [] = inl refl
  best_from-Among best (r ∷ results) = elim (Bool-cases (is_better r best)) [
    | inl e ↦
        subst (λ b. Among b (best ∷ r ∷ results)) (best_from-better best r results e)
          (inr (best_from-Among r results))
    | inr e ↦
        subst (λ b. Among b (best ∷ r ∷ results)) (best_from-kept best r results e)
          (elim (best_from-Among best results) [
            | inl first ↦ inl first
            | inr later ↦ inr (inr later)
          ])
  ]

-- For a task of the kind that the pool handles, SuggestAndEvaluate returns an error exactly where no
-- agent has a result; else it returns one of the results, and none of them is better: has a higher
-- score, or the same and fewer semantic reasons.
pub suggest_from_pool-best :
    {F : Type 0} (task : Task) (results : List (Option (AgentResult F)))
    (agents : List (PooledAgent F))
    → (task.kind == task_fix_broken) ≡ true
    → ((valid_results results ≡ []) × ((suggest_from_pool task results agents).0 ≡ err no_result))
      ⊎ ((best : AgentResult F) × ((suggest_from_pool task results agents).0 ≡ ok best)
          × Among best (valid_results results)
          × All (λ r. is_better r best ≡ false) (valid_results results))
unfolding suggest_from_pool
suggest_from_pool-best task results agents kind = elim (List-cases (valid_results results)) [
  | inl e ↦ inl (e, rw (kind, e, suggest_from_pool) refl)
  | inr (first, rest, e) ↦ inr (
    best_from first rest,
    rw (kind, e, suggest_from_pool) refl,
    rw e (best_from-Among first rest),
    rw e (best_from-start first rest, best_from-Loses first rest),
  )
]
