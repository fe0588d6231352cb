-- ===== src/SlotPool/Counting.antt =====
-- How often an index is in a list, and how many flags are set.
use bittorrent_application_l.Base.{
  ℕ, zero, suc, ◌+◌, ◌≤◌, ◌<◌, ◌≡◌, refl, Bool, true, false, List, [], ◌∷◌, arith, length, get_or,
  set, replicate, ◌==◌, if◌then◌else◌, ℕ_discrete, get_or-set_self, get_or-set_ne, ==-true,
  ==-false,
}
use bittorrent_application_l.SlotPool.{iota}

abbrev pub bit : Bool → ℕ
bit b = if b then 1 else 0

abbrev pub count : ℕ → List ℕ → ℕ
count i [] = 0
count i (x ∷ xs) = bit (x == i) + count i xs

abbrev pub trues : List Bool → ℕ
trues [] = 0
trues (b ∷ bs) = bit b + trues bs

pub trues-set-true :
    (bs : List Bool) (i : ℕ)
    → i < length bs
    → get_or bs i false ≡ false
    → trues (set bs i true) ≡ trues bs + 1
trues-set-true [] i h e = elim h [ ]
trues-set-true (b ∷ bs) zero h e = ground arith
trues-set-true (b ∷ bs) (suc i) h e = omega (arith, trues-set-true bs i (omega arith) e)

pub trues-set-false :
    (bs : List Bool) (i : ℕ) → get_or bs i false ≡ true → trues (set bs i false) + 1 ≡ trues bs
trues-set-false [] i e = absurd (ground arith)
trues-set-false (b ∷ bs) zero e = ground arith
trues-set-false (b ∷ bs) (suc i) e = omega (arith, trues-set-false bs i e)

pub trues-replicate : (n : ℕ) → trues (replicate n false) ≡ 0
trues-replicate zero = refl
trues-replicate (suc n) = omega (arith, trues-replicate n)

pub get_or-replicate : (n i : ℕ) → get_or (replicate n false) i false ≡ false
get_or-replicate zero i = refl
get_or-replicate (suc n) zero = refl
get_or-replicate (suc n) (suc i) = get_or-replicate n i

pub length-iota : (n : ℕ) → length (iota n) ≡ n
unfolding iota
length-iota zero = refl
length-iota (suc n) = omega (arith, length-iota n)

pub count-iota_above : (n i : ℕ) → n ≤ i → count i (iota n) ≡ 0
unfolding iota
count-iota_above zero i h = refl
count-iota_above (suc n) i h = ground (arith, count-iota_above n i (omega arith))

pub count-iota : (n i : ℕ) → i < n → count i (iota n) ≡ 1
unfolding iota
count-iota zero i h = elim h [ ]
count-iota (suc n) i h = elim (ℕ_discrete n i) [
  | yes e ↦ ground (arith, count-iota_above n i (omega arith))
  | no ne ↦ ground (arith, count-iota n i (omega arith))
]

-- An occupied flag read after a write.
pub flag_after :
    (bs : List Bool) (i j : ℕ) (b : Bool)
    → i < length bs
    → bit (get_or (set bs i b) j false) ≡ (if i == j then bit b else bit (get_or bs j false))
flag_after bs i j b h = elim (ℕ_discrete i j) [
  | yes e ↦ rw (==-true i j e, ← e, get_or-set_self bs i b false h)
  | no ne ↦ rw (==-false i j ne, get_or-set_ne bs i j b false ne)
]
