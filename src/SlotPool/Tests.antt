-- ===== src/SlotPool/Tests.antt =====
-- A pool of three slots of which the last is held.
use bittorrent_application_l.Base.{
  ℕ, zero, suc, ◌+◌, ◌≤◌, ◌<◌, ◌≡◌, refl, [], ◌∷◌, ◌⊎◌, some, none, true, false, arith, get_or,
}
use bittorrent_application_l.SlotPool.{Pool, slot_recycling_pool, acquire, release, available}
use bittorrent_application_l.SlotPool.Counting.{count, bit}
use bittorrent_application_l.SlotPool.Ownership.{
  IsValid, Acquired, Released, slot_recycling_pool-IsValid, acquire_lem, release_lem,
}

abbrev held : Pool ℕ
held = record {
  pool =
      record { object = 0; generation = 0 }
      ∷ record { object = 0; generation = 4 }
      ∷ record { object = 9; generation = 1 }
      ∷ [];
  available_slots = 1 ∷ 0 ∷ [];
  occupied = false ∷ false ∷ true ∷ [];
}

held-IsValid : IsValid 3 held
held-IsValid = record { slots = refl; flags = refl; once = once; within = within; total = refl }
  where
    once : (i : ℕ) → i < 3 → count i held.available_slots + bit (get_or held.occupied i false) ≡ 1
    once zero h = refl
    once (suc zero) h = refl
    once (suc (suc zero)) h = refl
    once (suc (suc (suc i))) h = absurd (omega arith)

    within : (i : ℕ) → 3 ≤ i → count i held.available_slots ≡ 0
    within i h = ground arith

slot_recycling_pool-IsValid_example :
    IsValid {T = ℕ} 3 (slot_recycling_pool 3 0) × (available {T = ℕ} (slot_recycling_pool 3 0) ≡ 3)
slot_recycling_pool-IsValid_example = slot_recycling_pool-IsValid {T = ℕ} 3 0

acquire_lem_example :
    ((available held ≡ 0) × (acquire held ≡ (none, held)))
    ⊎ ((slot : ℕ) × (p' : Pool ℕ) × (acquire held ≡ (some slot, p')) × Acquired 3 held slot p')
acquire_lem_example = acquire_lem 3 held held-IsValid

release_lem_example : (p' : Pool ℕ) × (release false 3 held 2 ≡ some p') × Released 3 held 2 p'
release_lem_example = release_lem 3 false held 2 held-IsValid refl (omega arith)
