-- ===== src/Ci/Expansion/Combinations.antt =====
-- The number of combinations of a matrix (internal/ci/matrix.go).
mod Samples
use pads_v.Common.{
  ℕ, zero, suc, ◌+◌, ◌*◌, ◌≡◌, refl, ap, ◌∙◌, String, Bool, true, false, Option, none, some, List,
  [], ◌∷◌, ◌++◌, map, arith, ◌==◌, eq_iff, if◌then◌else◌, length, length-append, All, Bool-cases,
  inl, inr,
}
use pads_v.Common.Count.{count, Has}
use pads_v.Common.Table.{Table, keys, lookup, insert, lookup-insert}
use pads_v.Ci.Jobs.{Matrix}
use pads_v.Ci.Expansion.{with_each, extend_all, expand_vars, expand}

abbrev pub product : Table (List String) → ℕ
product [] = 1
product ((key, values) ∷ vars) = length values * product vars

length-with_each :
    (key : String) (values : List String) (r : Table String)
    → length (with_each key values r) ≡ length values
length-with_each key [] r = refl
length-with_each key (v ∷ values) r = omega (arith, length-with_each key values r)

length-extend_all :
    (key : String) (values : List String) (result : List (Table String))
    → length (extend_all key values result) ≡ length result * length values
unfolding extend_all
length-extend_all key values [] = omega arith
length-extend_all key values (r ∷ result) = grind (
  arith,
  length-append (with_each key values r) (extend_all key values result),
  length-with_each key values r,
  length-extend_all key values result,
)

times_assoc : (a b c : ℕ) → a * b * c ≡ a * (b * c)
times_assoc a b c = grind arith

length-expand_vars :
    (vars : Table (List String)) (result : List (Table String))
    → length (expand_vars vars result) ≡ length result * product vars
unfolding expand_vars
length-expand_vars [] result = omega arith
length-expand_vars ((key, values) ∷ vars) result =
    length-expand_vars vars (extend_all key values result)
    ∙ (ap (λ n. n * product vars) (length-extend_all key values result)
        ∙ times_assoc (length result) (length values) (product vars))

-- The expansion of a matrix has as many combinations as the product of the numbers of the values of
-- its variables, one where it has no variable.
length-expand : (m : Matrix) → length (expand m) ≡ product m.vars
unfolding expand
length-expand m = omega (arith, length-expand_vars m.vars ([] ∷ []))
