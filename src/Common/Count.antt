-- ===== src/Common/Count.antt =====
-- How often a text stands in a list: the bag view of queues, orders and key sets.
use Prim.Native.Nat.{ℕ, suc, ◌+◌, ◌≤◌, ◌<◌}
use Prim.Native.String.{String}
use mathlib.Core.Path.{◌≡◌, refl}
use mathlib.Core.Bool.{Bool, true, false}
use mathlib.Core.List.{List, [], ◌∷◌, ◌++◌}
use native.Mathlib.Omega.{arith}
use text.Mathlib.Text.{◌==◌}
use text.Mathlib.TextEquality.{eq_iff}
use pads_v.Common.Tests.{bit, if◌then◌else◌}
use pads_v.Common.Lists.{length, keep}

abbrev pub count : String → List String → ℕ
count k [] = 0
count k (x ∷ xs) = bit (x == k) + count k xs

abbrev pub Has : List String → String → Type 0
Has l k = 0 < count k l

-- The same texts, each as often.
abbrev pub SameItems : List String → List String → Type 0
SameItems xs ys = (k : String) → count k xs ≡ count k ys

abbrev pub IsUnique : List String → Type 0
IsUnique l = (k : String) → count k l ≤ 1

pub ==_self : (k : String) → (k == k) ≡ true
==_self k = (eq_iff k k).1 refl

pub count-append : (k : String) (xs ys : List String) → count k (xs ++ ys) ≡ count k xs + count k ys
count-append k [] ys = omega arith
count-append k (x ∷ xs) ys = omega (arith, count-append k xs ys)

pub bit_self : (k : String) → bit (k == k) ≡ 1
bit_self k = rw (==_self k)

-- The first occurrence of `k` removed.
without_one : String → List String → List String
without_one k [] = []
without_one k (x ∷ xs) = if x == k then xs else x ∷ without_one k xs

count-without_one :
    (k j : String) (l : List String)
    → Has l k
    → count j l ≡ bit (k == j) + count j (without_one k l)
unfolding without_one
count-without_one k j [] h = absurd (omega arith)
count-without_one k j (x ∷ xs) h =
    ground (arith, eq_iff x k, eq_iff x j, eq_iff k j, count-without_one k j xs)

length-without_one :
    (k : String) (l : List String) → Has l k → length l ≡ suc (length (without_one k l))
unfolding without_one
length-without_one k [] h = absurd (omega arith)
length-without_one k (x ∷ xs) h = ground (arith, length-without_one k xs)

-- A list that holds no text more often than another is no longer.
pub length-le :
    (xs ys : List String) → ((k : String) → count k xs ≤ count k ys) → length xs ≤ length ys
length-le [] ys h = omega arith
length-le (x ∷ xs) ys h =
    let held : Has ys x = omega (arith, h x, bit_self x) in
    let rest =
      length-le xs (without_one x ys) (λ k. omega (arith, h k, count-without_one x k ys held)) in
    omega (arith, rest, length-without_one x ys held)

-- If it is as long, it holds the same.
pub SameItems-length :
    (xs ys : List String)
    → ((k : String) → count k xs ≤ count k ys)
    → length xs ≡ length ys
    → SameItems xs ys
SameItems-length [] [] h e k = refl
SameItems-length [] (y ∷ ys) h e k = absurd (omega arith)
SameItems-length (x ∷ xs) ys h e k =
    let held : Has ys x = omega (arith, h x, bit_self x) in
    let rest =
      SameItems-length xs (without_one x ys)
        (λ j. omega (arith, h j, count-without_one x j ys held))
        (omega (arith, e, length-without_one x ys held)) k in
    omega (arith, rest, count-without_one x k ys held)

pub length-SameItems : (xs ys : List String) → SameItems xs ys → length xs ≡ length ys
length-SameItems xs ys h =
    omega
      (arith, length-le xs ys (λ k. omega (arith, h k)), length-le ys xs (λ k. omega (arith, h k)))

pub count-keep :
    (p : String → Bool) (k : String) (l : List String)
    → count k (keep p l) ≡ (if p k then count k l else 0)
count-keep p k [] = ground arith
count-keep p k (x ∷ xs) = ground (arith, eq_iff x k, count-keep p k xs)

-- A text is not two different ones.
pub bit_apart : (a b k : String) → (a == b) ≡ false → bit (a == k) + bit (b == k) ≤ 1
bit_apart a b k h = ground (arith, eq_iff a k, eq_iff b k, eq_iff a b)
