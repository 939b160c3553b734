-- ===== src/Common/Sorting.antt =====
-- `sort.Strings`: texts in the order of their bytes.
use Prim.Native.Nat.{◌+◌}
use Prim.Native.String.{String, compare}
use mathlib.Core.Path.{◌≡◌, refl}
use mathlib.Core.Bool.{Bool}
use mathlib.Core.List.{List, [], ◌∷◌}
use native.Mathlib.Omega.{arith}
use text.Mathlib.Text.{is_le, ◌==◌}
use pads_v.Common.Tests.{bit, if◌then◌else◌}
use pads_v.Common.Lists.{length}
use pads_v.Common.Count.{count, length-SameItems}

abbrev str_le : String → String → Bool
str_le a b = is_le (compare a b)

pub insert_sorted : String → List String → List String
insert_sorted a [] = a ∷ []
insert_sorted a (x ∷ xs) = if str_le a x then a ∷ x ∷ xs else x ∷ insert_sorted a xs

unfoldable pub sort : List String → List String
unfolding insert_sorted
sort [] = []
sort (x ∷ xs) = insert_sorted x (sort xs)

count-insert_sorted :
    (k a : String) (l : List String) → count k (insert_sorted a l) ≡ bit (a == k) + count k l
unfolding insert_sorted
count-insert_sorted k a [] = refl
count-insert_sorted k a (x ∷ xs) = ground (arith, count-insert_sorted k a xs)

pub count-sort : (k : String) (l : List String) → count k (sort l) ≡ count k l
unfolding sort
count-sort k [] = refl
count-sort k (x ∷ xs) = omega (arith, count-insert_sorted k x (sort xs), count-sort k xs)

pub length-sort : (l : List String) → length (sort l) ≡ length l
length-sort l = length-SameItems (sort l) l (λ k. count-sort k l)
