-- ===== src/Common/Table.antt =====
-- Go maps with text keys, as association lists in an order of iteration, and counters by key.
use Prim.Native.String.{String}
use mathlib.Core.Path.{◌≡◌, refl, ◌∙◌}
use mathlib.Core.Option.{Option, none, some}
use mathlib.Core.List.{List, [], ◌∷◌}
use native.Mathlib.Omega.{arith}
use text.Mathlib.Text.{◌==◌}
use text.Mathlib.TextEquality.{eq_iff}
use mathlib.Core.Logic.{inl, inr}
use pads_v.Common.Tests.{if◌then◌else◌, Bool-cases}
use pads_v.Common.Count.{Has, ==_self}
use pads_v.Common.Lists.{length}

abbrev pub Table {ℓ} : Type ℓ → Type ℓ
Table V = List (String × V)

module _ {ℓ} {V : Type ℓ} where
  abbrev pub keys : Table V → List String
  keys [] = []
  keys ((k, v) ∷ m) = k ∷ keys m

  unfoldable pub lookup : String → Table V → Option V
  lookup key [] = none
  lookup key ((other, value) ∷ rest) = if other == key then some value else lookup key rest

  -- m[k] = v
  unfoldable pub insert : String → V → Table V → Table V
  insert key new [] = (key, new) ∷ []
  insert key new ((other, value) ∷ rest) =
      if other == key then (key, new) ∷ rest else (other, value) ∷ insert key new rest

  -- delete(m, k)
  unfoldable pub delete : String → Table V → Table V
  delete key [] = []
  delete key ((other, value) ∷ rest) =
      if other == key then delete key rest else (other, value) ∷ delete key rest

  pub lookup-insert :
      (key asked : String) (new : V) (table : Table V)
      → lookup asked (insert key new table)
        ≡ (if key == asked then some new else lookup asked table)
  unfolding insert lookup
  lookup-insert key asked new [] = refl
  lookup-insert key asked new ((other, value) ∷ rest) =
      let tail = lookup-insert key asked new rest in
      ground (arith, tail, eq_iff other key, eq_iff other asked, eq_iff key asked)

  pub lookup-insert_self :
      (key : String) (new : V) (table : Table V) → lookup key (insert key new table) ≡ some new
  lookup-insert_self key new table = lookup-insert key key new table ∙ rw (==_self key) refl

  pub lookup-delete :
      (k j : String) (m : Table V) → lookup j (delete k m) ≡ (if k == j then none else lookup j m)
  unfolding lookup delete
  lookup-delete k j [] = ground arith
  lookup-delete k j ((i, w) ∷ m) =
      ground (arith, eq_iff i k, eq_iff i j, eq_iff k j, lookup-delete k j m)

-- A key is listed exactly when it is found.
pub lookup-Has {ℓ} :
    {V : Type ℓ} (k : String) (m : Table V) → Has (keys m) k → (v : V) × (lookup k m ≡ some v)
unfolding lookup
lookup-Has k [] h = absurd (omega arith)
lookup-Has k ((j, v) ∷ m) h = elim (Bool-cases (j == k)) [
  | inl e ↦ (v, rw e)
  | inr e ↦ let (w, found) = lookup-Has k m (ground arith) in (w, ground arith)
]

pub Has-lookup {ℓ} :
    {V : Type ℓ} (k : String) (m : Table V) {v : V} → lookup k m ≡ some v → Has (keys m) k
unfolding lookup
Has-lookup k [] h = absurd (cc)
Has-lookup k ((j, w) ∷ m) {v} h = elim (Bool-cases (j == k)) [
  | inl e ↦ ground arith
  | inr e ↦ let rest = Has-lookup k m {v = v} (ground arith) in omega arith
]

pub length-keys {ℓ} : {V : Type ℓ} (m : Table V) → length (keys m) ≡ length m
length-keys [] = refl
length-keys ((k, v) ∷ m) = omega (arith, length-keys m)

-- A total map: a key that was never written has the zero value that the map starts with.
abbrev pub put {ℓ} : {A : Type ℓ} → (String → A) → String → A → String → A
put f k v j = if k == j then v else f j
