-- ===== src/SlotPool.antt =====
-- src/Client/slot_pool.hpp: N objects that are handed out and taken back by slot.
-- A `pool_slot*` is the index of its slot. The head of `available_slots` is the vector's back.
-- `ndebug` says whether assertions are compiled out; `none` is a failed one.
pub mod Counting
pub mod Ownership
mod Tests
use bittorrent_application_l.Base.{
  ℕ, zero, suc, Bool, true, false, ◌&&◌, ◌||◌, ltb, if◌then◌else◌, List, [], ◌∷◌, Option, none,
  some, length, get_or, set, replicate, add_size, sub_size, require, ◌>>◌,
}

pub record Slot {ℓ} (T : Type ℓ) : Type ℓ where
  pub object : T
  pub generation : ℕ

pub record Pool {ℓ} (T : Type ℓ) : Type ℓ where
  pub pool : List (Slot T)
  pub available_slots : List ℕ
  pub occupied : List Bool

-- std::iota over N slots, from the back
unfoldable pub iota : ℕ → List ℕ
iota zero = []
iota (suc n) = n ∷ iota n

module _ {ℓ} {T : Type ℓ} where
  -- `blank` is the default-constructed object.
  unfoldable pub slot_recycling_pool : ℕ → T → Pool T
  unfolding iota
  slot_recycling_pool n blank = record {
    pool = replicate n (record { object = blank; generation = 0 });
    available_slots = iota n;
    occupied = replicate n false;
  }

  take_slot : Pool T → List ℕ → Option ℕ × Pool T
  take_slot p [] = (none, p)
  take_slot p (slot ∷ rest) =
      (some slot, record p { available_slots = rest; occupied = set p.occupied slot true })

  unfoldable pub acquire : Pool T → Option ℕ × Pool T
  unfolding take_slot
  acquire p = take_slot p p.available_slots

  -- A slot outside the array is not modelled further than the assertion that rules it out.
  next_generation : List (Slot T) → ℕ → List (Slot T)
  next_generation [] i = []
  next_generation (s ∷ slots) zero = record s { generation = add_size s.generation 1 } ∷ slots
  next_generation (s ∷ slots) (suc i) = s ∷ next_generation slots i

  unfoldable pub release : Bool → ℕ → Pool T → ℕ → Option (Pool T)
  unfolding next_generation
  release ndebug n p slot_index = do
    require (ndebug || ltb slot_index n)
    require (ndebug || get_or p.occupied slot_index false)
    some (record p {
      pool = next_generation p.pool slot_index;
      available_slots = slot_index ∷ p.available_slots;
      occupied = set p.occupied slot_index false;
    })

  unfoldable pub available : Pool T → ℕ
  available p = length p.available_slots

  unfoldable pub active : ℕ → Pool T → ℕ
  unfolding available
  active n p = sub_size n (available p)

  unfoldable pub generation_at : List (Slot T) → ℕ → ℕ
  generation_at [] i = 0
  generation_at (s ∷ slots) zero = s.generation
  generation_at (s ∷ slots) (suc i) = generation_at slots i

  -- What `generation()` reads through a slot pointer.
  unfoldable pub generation : Pool T → ℕ → ℕ
  unfolding generation_at
  generation p i = generation_at p.pool i
