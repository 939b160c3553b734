-- ===== src/Agent/Plans/Digits.antt =====
-- The digits that itoa writes.
use pads_v.Common.{
  ℕ, zero, suc, ◌+◌, ◌*◌, ◌/◌, ◌%◌, ◌<◌, ◌≡◌, refl, ◌∙◌, ap, some, List, [], ◌∷◌, arith, eqb,
  Bool-cases, inl, inr,
}
use pads_v.Common.Int.{pos}
use pads_v.Agent.Plans.{digits_from, digits_of, buffer_size}

-- The number that decimal digits read as, after those of `n`.
unfoldable pub read_digits : ℕ → List ℕ → ℕ
read_digits n [] = n
read_digits n (d ∷ digits) = read_digits (n * 10 + d) digits

abbrev pub power_of_ten : ℕ → ℕ
power_of_ten zero = 1
power_of_ten (suc n) = 10 * power_of_ten n

split_digit : (n : ℕ) → n / 10 * 10 + n % 10 ≡ n
split_digit n = omega arith

read_digits-digits_from :
    (room n : ℕ) (later : List ℕ)
    → n < power_of_ten room
    → (digits : List ℕ) × (digits_from room n later ≡ some digits)
      × (read_digits 0 digits ≡ read_digits n later)
unfolding digits_from read_digits
read_digits-digits_from zero n later h =
    let none_left : n ≡ 0 = omega arith in (later, rw none_left refl, rw none_left refl)
read_digits-digits_from (suc room) n later h =
    let (digits, found, read) =
      read_digits-digits_from room (n / 10) (n % 10 ∷ later) (omega arith) in
    elim (Bool-cases (eqb n 0)) [
      | inl e ↦
          let none_left : n ≡ 0 = ground arith in
          (later, rw (e, digits_from) refl, rw none_left refl)
      | inr e ↦
          (digits, rw (e, digits_from) found, read ∙ ap (λ k. read_digits k later) (split_digit n))
    ]

-- For a number from 0 and below 10^20, and so for every `int` that is not negative, the buffer is
-- large enough, and the digits that itoa writes read as the number.
pub read_digits-digits_of :
    (n : ℕ)
    → n < 100000000000000000000
    → (digits : List ℕ) × (digits_of (pos n) ≡ some digits) × (read_digits 0 digits ≡ n)
unfolding digits_of read_digits
read_digits-digits_of n h = elim (Bool-cases (eqb n 0)) [
  | inl e ↦ (0 ∷ [], rw (e, digits_of) refl, ground arith)
  | inr e ↦
      let (digits, found, read) = read_digits-digits_from buffer_size n [] h in
      (digits, rw (e, digits_of) found, read)
]
