-- ===== src/Signing/Decimal.antt =====
-- The decimal print of a number: it is read back, it is made of digits, and how long it is.
use alchemist_template.Common.{
  ℕ, zero, suc, ◌+◌, ◌-◌, ◌*◌, ◌/◌, ◌%◌, ◌≤◌, ◌<◌, ◌≡◌, refl, ap, ◌∙◌, subst, inl, inr, true, false,
  [], ◌∷◌, arith, ltb, Bool-cases, length, Text, digits, decimal,
}
use alchemist_template.Import.Labels.{is_nil}
use alchemist_template.Import.Grid.{is_digit}
use alchemist_template.Signing.{number_after, every}

number-digits :
    (fuel n : ℕ) (acc : Text) → n < fuel → number_after 0 (digits fuel n acc) ≡ number_after n acc
unfolding digits
number-digits zero n acc h = absurd (omega (arith, h))
number-digits (suc fuel) n acc h = elim (Bool-cases (ltb n 10)) [
  | inl small ↦
      rw small
        (ap (λ k. number_after k acc) (let e : 0 * 10 + ((b'0' + n) - b'0') ≡ n = omega arith in e))
  | inr big ↦ rw big (
      number-digits fuel (n / 10) ((b'0' + n % 10) ∷ acc) (ground arith)
      ∙ ap (λ k. number_after k acc)
          (let e : n / 10 * 10 + ((b'0' + n % 10) - b'0') ≡ n = omega arith in e))
]

pub number-decimal : (n : ℕ) → number_after 0 (decimal n) ≡ n
unfolding decimal
number-decimal n = number-digits (n + 1) n [] (omega arith)

every-digits :
    (fuel n : ℕ) (acc : Text)
    → every is_digit acc ≡ true
    → every is_digit (digits fuel n acc) ≡ true
unfolding digits every is_digit
every-digits zero n acc h = h
every-digits (suc fuel) n acc h = elim (Bool-cases (ltb n 10)) [
  | inl small ↦ rw small (ground arith)
  | inr big ↦ rw big (every-digits fuel (n / 10) ((b'0' + n % 10) ∷ acc) (ground arith))
]

pub every-decimal : (n : ℕ) → every is_digit (decimal n) ≡ true
unfolding decimal every
every-decimal n = every-digits (n + 1) n [] refl

abbrev pub ten_to : ℕ → ℕ
ten_to zero = 1
ten_to (suc k) = 10 * ten_to k

length-digits :
    (k fuel n : ℕ) (acc : Text)
    → n < ten_to (suc k)
    → length (digits fuel n acc) ≤ suc k + length acc
unfolding digits
length-digits k zero n acc h = omega arith
length-digits zero (suc fuel) n acc h = ground arith
length-digits (suc k) (suc fuel) n acc h = elim (Bool-cases (ltb n 10)) [
  | inl small ↦ rw small (omega arith)
  | inr big ↦
      let rest = length-digits k fuel (n / 10) ((b'0' + n % 10) ∷ acc) (omega (arith, h)) in
      rw big (omega (arith, rest))
]

digits-not_nil : (fuel n : ℕ) (acc : Text) → is_nil acc ≡ false → is_nil (digits fuel n acc) ≡ false
unfolding digits
digits-not_nil zero n acc h = h
digits-not_nil (suc fuel) n acc h = elim (Bool-cases (ltb n 10)) [
  | inl small ↦ rw small refl
  | inr big ↦ rw big (digits-not_nil fuel (n / 10) ((b'0' + n % 10) ∷ acc) refl)
]

digits-start : (fuel n : ℕ) (acc : Text) → is_nil (digits (suc fuel) n acc) ≡ false
unfolding digits
digits-start fuel n acc = elim (Bool-cases (ltb n 10)) [
  | inl small ↦ rw small refl
  | inr big ↦ rw big (digits-not_nil fuel (n / 10) ((b'0' + n % 10) ∷ acc) refl)
]

pub decimal-not_nil : (n : ℕ) → is_nil (decimal n) ≡ false
unfolding decimal
decimal-not_nil n =
    let one_more : suc n ≡ n + 1 = omega arith in
    subst (λ k. is_nil (digits k n []) ≡ false) one_more (digits-start n n [])

pub length-decimal : (n : ℕ) → n < ten_to 12 → length (decimal n) ≤ 12
unfolding decimal
length-decimal n h = omega (arith, length-digits 11 (n + 1) n [] h)
