-- ===== src/Bits/Clear.antt =====
-- Conjunction with the complement of one bit.
use bittorrent_application_l.Base.{
  ℕ, zero, suc, ◌-◌, ◌/◌, ◌%◌, ◌^◌, ◌<◌, min, bit_and, ◌≡◌, refl, ap, ◌∙◌, ◌≢◌, arith,
}
use bittorrent_application_l.Bits.{bit_and_halves}
use bittorrent_application_l.Bits.Or.{and_suc, and_one}

pub and_half :
    (a b : ℕ)
    → (bit_and a b / 2 ≡ bit_and (a / 2) (b / 2)) × (bit_and a b % 2 ≡ min (a % 2) (b % 2))
and_half a b = (omega (arith, bit_and_halves a b), omega (arith, bit_and_halves a b))

power_lt : (i k : ℕ) → i < k → 2 ^ i < 2 ^ k
power_lt i zero h = absurd (omega arith)
power_lt zero (suc zero) h = omega arith
power_lt zero (suc (suc k)) h = omega (arith, power_lt zero (suc k) (omega arith))
power_lt (suc i) (suc k) h = omega (arith, power_lt i k (omega arith))

full_half : (k : ℕ) → ((2 ^ suc k - 1) / 2 ≡ 2 ^ k - 1) × ((2 ^ suc k - 1) % 2 ≡ 1)
full_half zero = (omega arith, omega arith)
full_half (suc k) = (
  omega (arith, power_lt zero (suc k) (omega arith)),
  omega (arith, power_lt zero (suc k) (omega arith)),
)

and_full : (k j w : ℕ) → j < k → bit_and (bit_and w (2 ^ k - 1)) (2 ^ j) ≡ bit_and w (2 ^ j)
and_full zero j w h = absurd (omega arith)
and_full (suc k) zero w h = omega (
  arith,
  and_one (bit_and w (2 ^ suc k - 1)),
  and_one w,
  (and_half w (2 ^ suc k - 1)).1,
  full_half k,
)
and_full (suc k) (suc j) w h = omega (
  arith,
  and_suc (bit_and w (2 ^ suc k - 1)) j,
  and_suc w j,
  ap (λ x. bit_and x (2 ^ j))
      ((and_half w (2 ^ suc k - 1)).0 ∙ ap (bit_and (w / 2)) (full_half k).0),
  and_full k j (w / 2) (omega arith),
)

-- All bits but bit i, of k.
abbrev pub all_but : ℕ → ℕ → ℕ
all_but k i = 2 ^ k - 1 - 2 ^ i

all_but-suc :
    (k i : ℕ)
    → i < k
    → (all_but (suc k) (suc i) / 2 ≡ all_but k i) × (all_but (suc k) (suc i) % 2 ≡ 1)
all_but-suc k i h = (omega (arith, power_lt i k h), omega (arith, power_lt i k h))

all_but-zero : (k : ℕ) → (all_but (suc k) 0 / 2 ≡ 2 ^ k - 1) × (all_but (suc k) 0 % 2 ≡ 0)
all_but-zero zero = (omega arith, omega arith)
all_but-zero (suc k) = (
  omega (arith, power_lt zero (suc k) (omega arith)),
  omega (arith, power_lt zero (suc k) (omega arith)),
)

pub cleared : (k i w : ℕ) → i < k → bit_and (bit_and w (all_but k i)) (2 ^ i) ≡ 0
cleared zero i w h = absurd (omega arith)
cleared (suc k) zero w h = omega (
  arith,
  and_one (bit_and w (all_but (suc k) 0)),
  (and_half w (all_but (suc k) 0)).1,
  (all_but-zero k).1,
)
cleared (suc k) (suc i) w h = omega (
  arith,
  and_suc (bit_and w (all_but (suc k) (suc i))) i,
  ap (λ x. bit_and x (2 ^ i))
      ((and_half w (all_but (suc k) (suc i))).0
        ∙ ap (bit_and (w / 2)) (all_but-suc k i (omega arith)).0),
  cleared k i (w / 2) (omega arith),
)

pub cleared_other :
    (k i j w : ℕ)
    → i < k
    → j < k
    → i ≢ j
    → bit_and (bit_and w (all_but k i)) (2 ^ j) ≡ bit_and w (2 ^ j)
cleared_other zero i j w h g ne = absurd (omega arith)
cleared_other (suc k) zero zero w h g ne = absurd (ne refl)
cleared_other (suc k) zero (suc j) w h g ne = omega (
  arith,
  and_suc (bit_and w (all_but (suc k) 0)) j,
  and_suc w j,
  ap (λ x. bit_and x (2 ^ j))
      ((and_half w (all_but (suc k) 0)).0 ∙ ap (bit_and (w / 2)) (all_but-zero k).0),
  and_full k j (w / 2) (omega arith),
)
cleared_other (suc k) (suc i) zero w h g ne = omega (
  arith,
  and_one (bit_and w (all_but (suc k) (suc i))),
  and_one w,
  (and_half w (all_but (suc k) (suc i))).1,
  (all_but-suc k i (omega arith)).1,
)
cleared_other (suc k) (suc i) (suc j) w h g ne = omega (
  arith,
  and_suc (bit_and w (all_but (suc k) (suc i))) j,
  and_suc w j,
  ap (λ x. bit_and x (2 ^ j))
      ((and_half w (all_but (suc k) (suc i))).0
        ∙ ap (bit_and (w / 2)) (all_but-suc k i (omega arith)).0),
  cleared_other k i j (w / 2) (omega arith) (omega arith) (λ e. ne (ap suc e)),
)
