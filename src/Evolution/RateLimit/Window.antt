-- ===== src/Evolution/RateLimit/Window.antt =====
-- How many times of a list lie in a window of time.
use pads_v.Common.{
  ℕ, ◌+◌, ◌≤◌, ◌<◌, ◌≡◌, refl, ap, ◌∙◌, Bool, true, false, ◌&&◌, List, [], ◌∷◌, ◌++◌, arith, ltb,
  leb, if◌then◌else◌, length, length-append, keep,
}
use pads_v.Evolution.RateLimit.{is_valid, valid}

pub length-keep_mono {ℓ} :
    {A : Type ℓ} (p q : A → Bool) (l : List A)
    → ((a : A) → p a ≡ true → q a ≡ true)
    → length (keep p l) ≤ length (keep q l)
length-keep_mono p q [] h = omega arith
length-keep_mono p q (x ∷ xs) h = ground (arith, h x, length-keep_mono p q xs h)

pub keep-keep {ℓ} :
    {A : Type ℓ} (p q : A → Bool) (l : List A)
    → ((a : A) → q a ≡ true → p a ≡ true)
    → keep q (keep p l) ≡ keep q l
keep-keep p q [] h = refl
keep-keep p q (x ∷ xs) h = ground (arith, h x, keep-keep p q xs h)

pub keep-append {ℓ} :
    {A : Type ℓ} (p : A → Bool) (xs ys : List A) → keep p (xs ++ ys) ≡ keep p xs ++ keep p ys
keep-append p [] ys = refl
keep-append p (x ∷ xs) ys = ground (arith, keep-append p xs ys)

-- How many of the times lie in the window that starts at `start`.
abbrev pub within : ℕ → ℕ → List ℕ → ℕ
within window start times = length (keep (λ t. leb start t && ltb t (start + window)) times)

within-snoc :
    (window now start : ℕ) (past : List ℕ)
    → within window start (past ++ now ∷ [])
      ≡ within window start past + (if leb start now && ltb now (start + window) then 1 else 0)
within-snoc window now start past =
    let test = λ (t : ℕ). leb start t && ltb t (start + window) in
    ap length (keep-append test past (now ∷ []))
    ∙ (length-append (keep test past) (keep test (now ∷ []))
        ∙ ap (λ n. length (keep test past) + n)
            (single (leb start now && ltb now (start + window)) now))
  where
    single : (b : Bool) (n : ℕ) → length (if b then n ∷ [] else []) ≡ (if b then 1 else 0)
    single true n = refl
    single false n = refl

-- A time in a window that `now` lies in is still valid at `now`.
within-valid :
    (window now start : ℕ) (past : List ℕ)
    → start ≤ now
    → now < start + window
    → within window start past ≤ length (valid window now past)
within-valid window now start past before inside =
    length-keep_mono (λ t. leb start t && ltb t (start + window)) (is_valid window now) past
      (λ t h. ground arith)

pub within_room :
    (window limit now : ℕ) (past : List ℕ)
    → length (valid window now past) < limit
    → ((start : ℕ) → within window start past ≤ limit)
    → (start : ℕ) → within window start (past ++ now ∷ []) ≤ limit
within_room window limit now past room bounded start = ground (
  arith,
  bounded start,
  within-snoc window now start past,
  λ (p : start ≤ now) (q : now < start + window). within-valid window now start past p q,
)
