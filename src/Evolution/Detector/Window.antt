-- ===== src/Evolution/Detector/Window.antt =====
-- The window of a detector, as scores are added (internal/policy/evolution/anti_collapse.go).
use pads_v.Common.{
  ℕ, zero, suc, ◌-◌, ◌≤◌, ◌≡◌, refl, sym, ◌∙◌, ap, List, [], ◌∷◌, ◌++◌, inl, inr, arith, ltb,
  length, length-append, length-drop, drop, Bool-cases,
}
use mathlib.Core.List.{append_assoc, append-nil}
use pads_v.Evolution.Detector.{Detector, new_detector, slide, add}

-- The last `n` elements.
abbrev pub last_n {ℓ} : {A : Type ℓ} → ℕ → List A → List A
last_n n xs = drop (length xs - n) xs

abbrev pub add_all : {F : Type 0} → Detector F → List F → Detector F
add_all d [] = d
add_all d (score ∷ scores) = add_all (add d score) scores

drop-nil : {F : Type 0} (n : ℕ) → ◌≡◌ {A = List F} (drop n []) []
drop-nil zero = refl
drop-nil (suc n) = refl

drop_snoc :
    {F : Type 0} (n : ℕ) (xs : List F) (x : F)
    → n ≤ length xs
    → drop n (xs ++ x ∷ []) ≡ drop n xs ++ x ∷ []
drop_snoc zero xs x h = refl
drop_snoc (suc n) [] x h = absurd (omega arith)
drop_snoc (suc n) (y ∷ xs) x h = drop_snoc n xs x (omega arith)

drop-suc : {F : Type 0} (n : ℕ) (xs : List F) → drop 1 (drop n xs) ≡ drop (suc n) xs
drop-suc zero [] = refl
drop-suc zero (x ∷ xs) = refl
drop-suc (suc n) [] = refl
drop-suc (suc n) (x ∷ xs) = drop-suc n xs

-- One step of the window is one step of the history.
pub slide-last_n :
    {F : Type 0} (n : ℕ) (xs : List F) (x : F) → slide n (last_n n xs) x ≡ last_n n (xs ++ x ∷ [])
unfolding slide
slide-last_n n xs x =
    let grown = drop_snoc (length xs - n) xs x (omega arith) in
    let long = length-append xs (x ∷ []) in
    let short = length-drop (length xs - n) (xs ++ x ∷ []) in
    rw (← grown) (elim (Bool-cases (ltb n (length (drop (length xs - n) (xs ++ x ∷ []))))) [
      | inl over ↦
          let e : length (xs ++ x ∷ []) - n ≡ suc (length xs - n) = ground arith in
          rw (over, e) (drop-suc (length xs - n) (xs ++ x ∷ []))
      | inr fits ↦ let e : length (xs ++ x ∷ []) - n ≡ length xs - n = ground arith in rw (fits, e)
    ])

window-add_all :
    {F : Type 0} (d : Detector F) (past scores : List F)
    → d.window ≡ last_n d.size past
    → (add_all d scores).window ≡ last_n d.size (past ++ scores)
unfolding add
window-add_all d past [] h = rw append-nil h
window-add_all d past (score ∷ scores) h =
    window-add_all (add d score) (past ++ score ∷ []) scores
      (ap (λ w. slide d.size w score) h ∙ slide-last_n d.size past score)
    ∙ ap (last_n d.size) (append_assoc past (score ∷ []) scores)

-- From a new detector, after any scores, the window holds the last of them, in order, at most as
-- many as its size.
pub window-new_detector :
    {F : Type 0} (size : ℕ) (threshold : F) (scores : List F)
    → (add_all (new_detector size threshold) scores).window ≡ last_n size scores
unfolding new_detector
window-new_detector size threshold scores =
    window-add_all (new_detector size threshold) [] scores (sym (drop-nil (0 - size)))
