-- ===== src/Prelude/Bits.antt =====
-- Conjunction and disjunction of binary digits, by the lowest digit of the second number. Both are
-- instances of one recursion, whose laws come first.
use Prim.Native.Nat.{bit_and, bit_or, digits, bitwise, bit_and-bitwise, bit_or-bitwise}
use Prim.Native.Nat.{ℕ, zero, suc, ◌+◌, ◌-◌, ◌*◌, ◌/◌, ◌%◌, ◌≤◌, min, max}
use mathlib.Core.Path.{◌≡◌, refl, ap, sym, ◌∙◌, subst}
use native.Mathlib.Omega.{arith}

-- `rest` is what is left once the first number has no more digits.
module _ (rest : ℕ → ℕ) (op : ℕ → ℕ → ℕ) where
  digits_of_zero : (count b : ℕ) → digits rest op count 0 b ≡ rest b
  digits_of_zero zero b = refl
  digits_of_zero (suc count) b = refl

  -- More recursions than the first number has digits change nothing.
  digits_spare :
      (spare count a b : ℕ)
      → a ≤ count
      → digits rest op (count + spare) a b ≡ digits rest op count a b
  digits_spare spare count zero b h =
      digits_of_zero (count + spare) b ∙ sym (digits_of_zero count b)
  digits_spare spare zero (suc a) b h = absurd (omega arith)
  digits_spare spare (suc count) (suc a) b h =
      let outer : suc (count + spare) ≡ suc count + spare = omega arith in
      subst (λ n. digits rest op n (suc a) b ≡ digits rest op (suc count) (suc a) b) outer
        (ap (λ high. high * 2 + op (suc a % 2) (b % 2))
          (digits_spare spare count (suc a / 2) (b / 2) (omega arith)))

  -- The digit at the bottom and the digits above it.
  bitwise_cut :
      (a b : ℕ)
      → rest b ≡ rest (b / 2) * 2 + op 0 (b % 2)
      → bitwise rest op a b ≡ bitwise rest op (a / 2) (b / 2) * 2 + op (a % 2) (b % 2)
  bitwise_cut zero b h = h
  bitwise_cut (suc a) b h =
      let half = suc a / 2 in
      let count : half + (a - half) ≡ a = omega arith in
      ap (λ high. high * 2 + op (suc a % 2) (b % 2))
        (subst (λ n. digits rest op n half (b / 2) ≡ bitwise rest op half (b / 2)) count
          (digits_spare (a - half) half half (b / 2) (omega arith)))

bit_and_cut : (a b : ℕ) → bit_and a b ≡ bit_and (a / 2) (b / 2) * 2 + min (a % 2) (b % 2)
bit_and_cut a b = omega (
  arith,
  bit_and-bitwise a b,
  bit_and-bitwise (a / 2) (b / 2),
  bitwise_cut (λ c. 0) min a b (omega arith),
)

bit_or_cut : (a b : ℕ) → bit_or a b ≡ bit_or (a / 2) (b / 2) * 2 + max (a % 2) (b % 2)
bit_or_cut a b = omega (
  arith,
  bit_or-bitwise a b,
  bit_or-bitwise (a / 2) (b / 2),
  bitwise_cut (λ c. c) max a b (omega arith),
)

no_common_digits : (count a : ℕ) → digits (λ c. 0) min count a 0 ≡ 0
no_common_digits zero a = refl
no_common_digits (suc count) zero = refl
no_common_digits (suc count) (suc a) = omega (arith, no_common_digits count (suc a / 2))

pub bit_and-zero : (a : ℕ) → bit_and a 0 ≡ 0
bit_and-zero a = omega (arith, bit_and-bitwise a 0, no_common_digits a a)

-- The second number by its lowest digit.
pub bit_and_double : (a b : ℕ) → bit_and a (b * 2) ≡ bit_and (a / 2) b * 2
bit_and_double a b =
    let half : b * 2 / 2 ≡ b = omega arith in
    omega (arith, bit_and_cut a (b * 2), ap (bit_and (a / 2)) half)

pub bit_and_double_one : (a b : ℕ) → bit_and a (b * 2 + 1) ≡ bit_and (a / 2) b * 2 + a % 2
bit_and_double_one a b =
    let half : (b * 2 + 1) / 2 ≡ b = omega arith in
    omega (arith, bit_and_cut a (b * 2 + 1), ap (bit_and (a / 2)) half)

pub bit_or_double : (a b : ℕ) → bit_or a (b * 2) ≡ bit_or (a / 2) b * 2 + a % 2
bit_or_double a b =
    let half : b * 2 / 2 ≡ b = omega arith in
    omega (arith, bit_or_cut a (b * 2), ap (bit_or (a / 2)) half)

pub bit_or_double_one : (a b : ℕ) → bit_or a (b * 2 + 1) ≡ bit_or (a / 2) b * 2 + 1
bit_or_double_one a b =
    let half : (b * 2 + 1) / 2 ≡ b = omega arith in
    omega (arith, bit_or_cut a (b * 2 + 1), ap (bit_or (a / 2)) half)
