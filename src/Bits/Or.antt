-- ===== src/Bits/Or.antt =====
-- Disjunction by its lowest digit, and single bits of a word.
use Prim.Native.Nat.{digits, bit_or-bitwise}
use bittorrent_application_l.Base.{
  ℕ, zero, suc, ◌+◌, ◌*◌, ◌/◌, ◌%◌, ◌^◌, ◌≤◌, max, bit_and, bit_or, ◌≡◌, refl, ap, ◌∙◌, ◌≢◌, arith,
}
use bittorrent_application_l.Bits.{bit_and_halves, bit_and-zero}

module _ (g : ℕ → ℕ → ℕ) where
  or_fuel : (n m a b : ℕ) → a ≤ n → a ≤ m → digits (λ k. k) g n a b ≡ digits (λ k. k) g m a b
  or_fuel zero zero zero b p q = refl
  or_fuel zero (suc m) zero b p q = refl
  or_fuel (suc n) zero zero b p q = refl
  or_fuel (suc n) (suc m) zero b p q = refl
  or_fuel zero _ (suc a) b p q = absurd (omega arith)
  or_fuel (suc n) zero (suc a) b p q = absurd (omega arith)
  or_fuel (suc n) (suc m) (suc a) b p q =
      omega (arith, or_fuel n m (suc a / 2) (b / 2) (omega arith) (omega arith))

zero-bit_or : (b : ℕ) → bit_or 0 b ≡ b
zero-bit_or b = bit_or-bitwise 0 b

bit_or_halves : (a b : ℕ) → bit_or a b ≡ bit_or (a / 2) (b / 2) * 2 + max (a % 2) (b % 2)
bit_or_halves zero b = omega (arith, zero-bit_or b, zero-bit_or (b / 2))
bit_or_halves (suc a) b = omega (
  arith,
  bit_or-bitwise (suc a) b,
  bit_or-bitwise (suc a / 2) (b / 2),
  or_fuel max a (suc a / 2) (suc a / 2) (b / 2) (omega arith) (omega arith),
)

pub power_half : (i : ℕ) → (2 ^ suc i / 2 ≡ 2 ^ i) × (2 ^ suc i % 2 ≡ 0)
power_half i = (omega arith, omega arith)

pub or_half :
    (a b : ℕ) → (bit_or a b / 2 ≡ bit_or (a / 2) (b / 2)) × (bit_or a b % 2 ≡ max (a % 2) (b % 2))
or_half a b = (omega (arith, bit_or_halves a b), omega (arith, bit_or_halves a b))

pub and_one : (w : ℕ) → bit_and w 1 ≡ w % 2
and_one w = omega (arith, bit_and_halves w 1, bit_and-zero (w / 2))

-- The halves of a bit above the lowest, and of a number under it.
pub and_suc : (w i : ℕ) → bit_and w (2 ^ suc i) ≡ bit_and (w / 2) (2 ^ i) * 2
and_suc w i =
    omega (arith, bit_and_halves w (2 ^ suc i), ap (bit_and (w / 2)) (power_half i).0, power_half i)

or_suc : (w i : ℕ) → bit_or w (2 ^ suc i) / 2 ≡ bit_or (w / 2) (2 ^ i)
or_suc w i = (or_half w (2 ^ suc i)).0 ∙ ap (bit_or (w / 2)) (power_half i).0

or-zero_below : (n a : ℕ) → a ≤ n → bit_or a 0 ≡ a
or-zero_below n zero h = zero-bit_or 0
or-zero_below zero (suc a) h = absurd (omega arith)
or-zero_below (suc n) (suc a) h =
    omega (arith, bit_or_halves (suc a) 0, or-zero_below n (suc a / 2) (omega arith))

bit_or-zero : (a : ℕ) → bit_or a 0 ≡ a
bit_or-zero a = or-zero_below a a (omega arith)

-- A disjunction with a bit has the bit.
pub bit_and-bit_or : (i w : ℕ) → bit_and (bit_or w (2 ^ i)) (2 ^ i) ≡ 2 ^ i
bit_and-bit_or zero w = omega (arith, and_one (bit_or w 1), (or_half w 1).1)
bit_and-bit_or (suc i) w = omega (
  arith,
  and_suc (bit_or w (2 ^ suc i)) i,
  ap (λ x. bit_and x (2 ^ i)) (or_suc w i),
  bit_and-bit_or i (w / 2),
)

-- And keeps every other bit.
pub bit_and-bit_or_other :
    (i j w : ℕ) → i ≢ j → bit_and (bit_or w (2 ^ i)) (2 ^ j) ≡ bit_and w (2 ^ j)
bit_and-bit_or_other zero zero w ne = absurd (ne refl)
bit_and-bit_or_other zero (suc j) w ne = omega (
  arith,
  and_suc (bit_or w 1) j,
  and_suc w j,
  ap (λ x. bit_and x (2 ^ j)) ((or_half w 1).0 ∙ bit_or-zero (w / 2)),
)
bit_and-bit_or_other (suc i) zero w ne =
    omega
      (arith, and_one (bit_or w (2 ^ suc i)), and_one w, (or_half w (2 ^ suc i)).1, power_half i)
bit_and-bit_or_other (suc i) (suc j) w ne = omega (
  arith,
  and_suc (bit_or w (2 ^ suc i)) j,
  and_suc w j,
  ap (λ x. bit_and x (2 ^ j)) (or_suc w i),
  bit_and-bit_or_other i j (w / 2) (λ e. ne (ap suc e)),
)
