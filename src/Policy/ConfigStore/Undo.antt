-- ===== src/Policy/ConfigStore/Undo.antt =====
-- Updates and rollbacks of the configuration.
use pads_v.Common.{
  ℕ, zero, suc, ◌+◌, ◌-◌, ◌≤◌, ◌≡◌, refl, sym, ap, subst, ◌∙◌, true, none, some, List, [], ◌∷◌,
  ◌++◌, arith, ltb, eqb, length, length-append, length-drop, drop, Bool-cases, inl, inr,
  Option-cases,
}
use pads_v.Common.Float.{Float}
use pads_v.Policy.Config.{TunedConfig}
use pads_v.Policy.ConfigStore.{
  ConfigStore, new_config_store, max_history, split_last, remember, update, rollback, update_score,
}

split_last-snoc : {A : Type 0} (l : List A) (a : A) → split_last (l ++ a ∷ []) ≡ some (l, a)
unfolding split_last
split_last-snoc [] a = refl
split_last-snoc (x ∷ l) a = rw (split_last-snoc l a) refl

drop_within :
    {A : Type 0} (n : ℕ) (xs ys : List A) → n ≤ length xs → drop n (xs ++ ys) ≡ drop n xs ++ ys
drop_within zero xs ys h = refl
drop_within (suc n) [] ys h = absurd (omega arith)
drop_within (suc n) (x ∷ xs) ys h = drop_within n xs ys (omega arith)

module _ (fl : Float) where
  open fl use {F}

  -- What a full history loses.
  abbrev pub surplus : List (TunedConfig F) → ℕ
  surplus history = length history + 1 - max_history

  remember-drop :
      (history : List (TunedConfig F)) (config : TunedConfig F)
      → remember fl history config ≡ drop (surplus history) history ++ config ∷ []
  remember-drop history config =
      let grown = length-append history (config ∷ []) in
      elim (Bool-cases (ltb max_history (length (history ++ config ∷ [])))) [
        | inl full ↦ rw full (
            ap (λ n. drop (n - max_history) (history ++ config ∷ [])) grown
            ∙ drop_within (surplus history) history (config ∷ []) (ground (arith, grown)))
        | inr room ↦
            let none_lost : surplus history ≡ 0 = ground (arith, grown) in
            rw room (ap (λ n. drop n history ++ config ∷ []) (sym none_lost))
      ]

  -- A rollback right after an update succeeds and restores the configuration, and the history but for
  -- the oldest entry where ten were held; the statistics of the scores are as they were.
  pub rollback-update :
      (s : ConfigStore F) (cfg : TunedConfig F)
      → rollback fl (update fl cfg s)
        ≡ (record s { history = drop (surplus s.history) s.history }, true)
  unfolding rollback update
  rollback-update s cfg =
      let back =
        ap split_last (remember-drop s.history s.config)
        ∙ split_last-snoc (drop (surplus s.history) s.history) s.config in
      rw (back, rollback) refl

-- A call that changes the store.
pub data Change (F : Type 0) : Type 0 where
  set : TunedConfig F → Change F
  undo : Change F
  score : F → Change F

split_last-none : {A : Type 0} (l : List A) → split_last l ≡ none → l ≡ []
unfolding split_last
split_last-none [] h = refl
split_last-none (x ∷ l) h = elim (Option-cases (split_last l)) [
  | inl e ↦ absurd (ground arith)
  | inr (p, e) ↦ absurd (ground arith)
]

split_last-eq :
    {A : Type 0} (l before : List A) (last : A)
    → split_last l ≡ some (before, last)
    → l ≡ before ++ last ∷ []
unfolding split_last
split_last-eq [] before last h = absurd (cc)
split_last-eq (x ∷ l) before last h = elim (Option-cases (split_last l)) [
  | inl e ↦ ground (arith, split_last-none l e)
  | inr ((b, z), e) ↦ let rest = split_last-eq l b z e in ground (arith, rest)
]

module _ (fl : Float) where
  open fl use {F}

  unfoldable pub apply : Change F → ConfigStore F → ConfigStore F
  apply (set cfg) s = update fl cfg s
  apply undo s = (rollback fl s).0
  apply (score x) s = update_score fl x s

  unfoldable pub apply_all : List (Change F) → ConfigStore F → ConfigStore F
  unfolding apply
  apply_all [] s = s
  apply_all (c ∷ changes) s = apply_all changes (apply c s)

  abbrev Small : ConfigStore F → Type 0
  Small s = length s.history ≤ max_history

  update-Small : (cfg : TunedConfig F) (s : ConfigStore F) → Small (update fl cfg s)
  unfolding update
  update-Small cfg s =
      subst (λ l. length l ≤ max_history) (sym (remember-drop fl s.history s.config))
        (omega (
          arith,
          length-append (drop (surplus fl s.history) s.history) (s.config ∷ []),
          length-drop (surplus fl s.history) s.history,
        ))

  rollback-Small : (s : ConfigStore F) → Small s → Small (rollback fl s).0
  unfolding rollback
  rollback-Small s h = elim (Option-cases (split_last s.history)) [
    | inl e ↦ rw (e, rollback) h
    | inr ((before, last), e) ↦
        let split = ap length (split_last-eq s.history before last e) in
        let grown = length-append before (last ∷ []) in rw (e, rollback) (omega arith)
  ]

  update_score-Small : (x : F) (s : ConfigStore F) → Small s → Small (update_score fl x s)
  unfolding update_score
  update_score-Small x s h = elim (Bool-cases (eqb (s.score_count + 1) 1)) [
    | inl first ↦ rw (first, update_score) h
    | inr later ↦ rw (later, update_score) h
  ]

  apply_all-Small :
      (changes : List (Change F)) (s : ConfigStore F) → Small s → Small (apply_all changes s)
  unfolding apply_all
  apply_all-Small [] s h = h
  apply_all-Small (set cfg ∷ changes) s h =
      apply_all-Small changes (update fl cfg s) (update-Small cfg s)
  apply_all-Small (undo ∷ changes) s h =
      apply_all-Small changes (rollback fl s).0 (rollback-Small s h)
  apply_all-Small (score x ∷ changes) s h =
      apply_all-Small changes (update_score fl x s) (update_score-Small x s h)

  -- Whatever updates, rollbacks and scores a new store gets, it holds ten configurations at most in
  -- its history.
  pub apply_all_bounded :
      (initial : TunedConfig F) (changes : List (Change F))
      → length (apply_all changes (new_config_store fl initial)).history ≤ max_history
  unfolding new_config_store
  apply_all_bounded initial changes =
      apply_all-Small changes (new_config_store fl initial) (omega arith)
