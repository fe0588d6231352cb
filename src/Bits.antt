-- ===== src/Bits.antt =====
-- The bit operations of the native numbers by their lowest digit, which the libraries give no law
-- for at variables.
pub mod Or
pub mod Clear
use Prim.Native.Nat.{digits, bit_and-bitwise}
use bittorrent_application_l.Base.{
  ℕ, zero, suc, ◌+◌, ◌-◌, ◌*◌, ◌/◌, ◌%◌, ◌≤◌, ◌<◌, min, bit_and, ◌≡◌, refl, ap, ap₂, ◌∙◌, ◌≢◌,
  arith, dec_lt, ℕ_discrete,
}
use native.Mathlib.Nat.{mul-add-mod_self_left, mod-eq_of_lt, mod-lt, div-add-mod}

-- The digit recursion does not depend on its fuel, once the fuel covers the first operand.
module _ (g : ℕ → ℕ → ℕ) where
  and_fuel : (n m a b : ℕ) → a ≤ n → a ≤ m → digits (λ _. zero) g n a b ≡ digits (λ _. zero) g m a b
  and_fuel zero zero zero b p q = refl
  and_fuel zero (suc m) zero b p q = refl
  and_fuel (suc n) zero zero b p q = refl
  and_fuel (suc n) (suc m) zero b p q = refl
  and_fuel zero _ (suc a) b p q = absurd (omega arith)
  and_fuel (suc n) zero (suc a) b p q = absurd (omega arith)
  and_fuel (suc n) (suc m) (suc a) b p q =
      omega (arith, and_fuel n m (suc a / 2) (b / 2) (omega arith) (omega arith))

-- The lowest digit of a conjunction.
zero-bit_and : (b : ℕ) → bit_and 0 b ≡ 0
zero-bit_and b = bit_and-bitwise 0 b

pub bit_and_halves : (a b : ℕ) → bit_and a b ≡ bit_and (a / 2) (b / 2) * 2 + min (a % 2) (b % 2)
bit_and_halves zero b = omega (arith, zero-bit_and b, zero-bit_and (b / 2))
bit_and_halves (suc a) b = omega (
  arith,
  bit_and-bitwise (suc a) b,
  bit_and-bitwise (suc a / 2) (b / 2),
  and_fuel min a (suc a / 2) (suc a / 2) (b / 2) (omega arith) (omega arith),
)

bit_and-zero_below : (n a : ℕ) → a ≤ n → bit_and a 0 ≡ 0
bit_and-zero_below n zero h = refl
bit_and-zero_below zero (suc a) h = absurd (omega arith)
bit_and-zero_below (suc n) (suc a) h =
    omega (arith, bit_and_halves (suc a) 0, bit_and-zero_below n (suc a / 2) (omega arith))

pub bit_and-zero : (a : ℕ) → bit_and a 0 ≡ 0
bit_and-zero a = bit_and-zero_below a a (omega arith)

bit_and-self_below : (n a : ℕ) → a ≤ n → bit_and a a ≡ a
bit_and-self_below n zero h = refl
bit_and-self_below zero (suc a) h = absurd (omega arith)
bit_and-self_below (suc n) (suc a) h =
    omega (arith, bit_and_halves (suc a) (suc a), bit_and-self_below n (suc a / 2) (omega arith))

mod_double : (a m : ℕ) → 0 < m → a % (2 * m) ≡ a / 2 % m * 2 + a % 2
mod_double a m pos =
    ap (λ k. k % (2 * m)) split
    ∙ mul-add-mod_self_left (2 * m) (a / 2 / m) (a / 2 % m * 2 + a % 2)
    ∙ mod-eq_of_lt (omega (arith, mod-lt (a / 2) pos))
  where
    split : a ≡ 2 * m * (a / 2 / m) + (a / 2 % m * 2 + a % 2)
    split = omega (arith, div-add-mod (a / 2) m)

-- An odd number above 1 and its predecessor share the bits of its half.
odd_overlap : (m : ℕ) → 0 < m → bit_and (2 * m + 1) (2 * m + 1 - 1) ≢ 0
odd_overlap m pos h = absurd (
    omega (
      arith,
      bit_and_halves (2 * m + 1) (2 * m),
      same,
      bit_and-self_below m m (omega arith),
      h',
      e1,
      e2,
    ))
  where
    e1 : (2 * m + 1) / 2 ≡ m
    e1 = omega arith

    e2 : 2 * m / 2 ≡ m
    e2 = omega arith

    h' : bit_and (2 * m + 1) (2 * m) ≡ 0
    h' = ap (bit_and (2 * m + 1)) (let e : 2 * m ≡ 2 * m + 1 - 1 = omega arith in e) ∙ h

    same : bit_and ((2 * m + 1) / 2) (2 * m / 2) ≡ bit_and m m
    same = ap₂ bit_and e1 e2

even_pred : (m a : ℕ) → 0 < m → bit_and a (2 * m - 1) ≡ bit_and (a / 2) (m - 1) * 2 + a % 2
even_pred m a pos = omega (arith, bit_and_halves a (2 * m - 1), ap (bit_and (a / 2)) half)
  where
    half : (2 * m - 1) / 2 ≡ m - 1
    half = omega arith

even_shared : (m : ℕ) → 0 < m → bit_and (2 * m) (2 * m - 1) ≡ 0 → bit_and m (m - 1) ≡ 0
even_shared m pos h = omega (arith, even_pred m (2 * m) pos, h, ap (λ k. bit_and k (m - 1)) half)
  where
    half : 2 * m / 2 ≡ m
    half = omega arith

-- The mask n - 1 of a number with one bit takes the remainder by that number.
bit_and_mask_below : (k n a : ℕ) → n ≤ k → 0 < n → bit_and n (n - 1) ≡ 0 → bit_and a (n - 1) ≡ a % n
bit_and_mask_below zero n a le pos one = absurd (omega arith)
bit_and_mask_below (suc k) n a le pos one = elim (dec_lt 1 n) [
  | no small ↦ let e : n ≡ 1 = omega arith in rw e (omega (arith, bit_and-zero a))
  | yes big ↦ elim (ℕ_discrete (n % 2) 0) [
    | yes even ↦
        let m : ℕ = n / 2 in
        let e : n ≡ 2 * m = omega arith in
        let ih =
          bit_and_mask_below k m (a / 2) (omega arith) (omega arith)
            (even_shared m (omega arith) (rw e at one)) in
        rw e (omega (arith, even_pred m a (omega arith), ih, mod_double a m (omega arith)))
    | no odd ↦
        let m : ℕ = n / 2 in
        let e : n ≡ 2 * m + 1 = omega arith in absurd (odd_overlap m (omega arith) (rw e at one))
  ]
]

pub bit_and_mask : (n a : ℕ) → 0 < n → bit_and n (n - 1) ≡ 0 → bit_and a (n - 1) ≡ a % n
bit_and_mask n a = bit_and_mask_below n n a (omega arith)
