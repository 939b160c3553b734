-- ===== src/Common/Float.antt =====
-- `float64` as the program uses it: an abstract type with the operations of the language and of
-- package math. No law of arithmetic is assumed.
use pads_v.Common.{Bool, String}
use pads_v.Common.Int.{ℤ}

pub record Float : Type 1 where
  pub F : Type 0
  pub zero : F
  -- float64(n), the constants among them
  pub of_int : ℤ → F
  -- n / d as a constant of the source, such as 0.5
  pub ratio : ℤ → ℤ → F
  pub add : F → F → F
  pub sub : F → F → F
  pub mul : F → F → F
  pub div : F → F → F
  pub abs : F → F
  pub min : F → F → F
  pub sqrt : F → F
  pub log : F → F
  pub log2 : F → F
  pub lt : F → F → Bool
  pub le : F → F → Bool
  pub eq : F → F → Bool
  -- int(x), and the quotient as an int, which Go truncates towards 0
  pub to_int : F → ℤ
  -- package fmt: %d of an int, and %.2f
  pub show_int : ℤ → String
  pub show_2 : F → String
