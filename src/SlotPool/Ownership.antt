-- ===== src/SlotPool/Ownership.antt =====
-- Every slot is either free, and listed once, or occupied, and not listed.
use bittorrent_application_l.Base.{
  ℕ, zero, suc, ◌+◌, ◌≤◌, ◌<◌, ◌≡◌, ◌≢◌, refl, ap, ◌∙◌, ◌⊎◌, inl, inr, Bool, true, false, List, [],
  ◌∷◌, none, some, arith, length, get_or, set, length-set, length-replicate, get_or-set_self,
  get_or-set_ne, lt→ltb, ==-false, add_size, ◌==◌, if◌then◌else◌, ltb, ◌||◌, dec_lt, Bool-cases,
}
use bittorrent_application_l.SlotPool.{
  Slot, Pool, slot_recycling_pool, acquire, take_slot, release, next_generation, available,
  generation, generation_at,
}
use bittorrent_application_l.SlotPool.Counting.{
  bit, count, flag_after, trues, trues-set-true, trues-set-false, trues-replicate, get_or-replicate,
  length-iota, count-iota, count-iota_above,
}

pub record IsValid {ℓ} {T : Type ℓ} (n : ℕ) (p : Pool T) : Type 0 where
  pub slots : length p.pool ≡ n
  pub flags : length p.occupied ≡ n
  pub once : (i : ℕ) → i < n → count i p.available_slots + bit (get_or p.occupied i false) ≡ 1
  pub within : (i : ℕ) → n ≤ i → count i p.available_slots ≡ 0
  pub total : length p.available_slots + trues p.occupied ≡ n

-- What the slots hold, without their generations.
module _ {ℓ} {T : Type ℓ} where
  unfoldable pub objects_of : List (Slot T) → List T
  objects_of [] = []
  objects_of (s ∷ slots) = s.object ∷ objects_of slots

  objects_of-next :
      (slots : List (Slot T)) (i : ℕ) → objects_of (next_generation slots i) ≡ objects_of slots
  unfolding objects_of next_generation
  objects_of-next [] i = refl
  objects_of-next (s ∷ slots) zero = refl
  objects_of-next (s ∷ slots) (suc i) = ap (λ xs. s.object ∷ xs) (objects_of-next slots i)

module _ {ℓ} {T : Type ℓ} (n : ℕ) where
  -- A fresh pool is valid and gives out nothing yet: every slot is available.
  pub slot_recycling_pool-IsValid :
      (blank : T)
      → IsValid n (slot_recycling_pool n blank) × (available (slot_recycling_pool n blank) ≡ n)
  unfolding slot_recycling_pool available
  slot_recycling_pool-IsValid blank = (
    record {
      slots = length-replicate n _;
      flags = length-replicate n false;
      once = λ i h. omega (arith, count-iota n i h, ap bit (get_or-replicate n i));
      within = λ i h. count-iota_above n i h;
      total = omega (arith, length-iota n, trues-replicate n);
    },
    length-iota n,
  )

  -- What a successful acquisition gives: a slot inside the array that nobody holds.
  pub record Acquired (p : Pool T) (slot : ℕ) (p' : Pool T) : Type ℓ where
    pub inside : slot < n
    pub was_free : get_or p.occupied slot false ≡ false
    pub now_held : get_or p'.occupied slot false ≡ true
    pub others : (j : ℕ) → slot ≢ j → get_or p'.occupied j false ≡ get_or p.occupied j false
    pub objects : p'.pool ≡ p.pool
    pub valid : IsValid n p'
    pub fewer : available p ≡ available p' + 1

  take_slot_lem :
      (p : Pool T) (slot : ℕ) (rest : List ℕ)
      → IsValid n p
      → p.available_slots ≡ slot ∷ rest
      → Acquired p slot (take_slot p (slot ∷ rest)).1
  unfolding take_slot available
  take_slot_lem p slot rest v e = record {
    inside = inside;
    was_free = free;
    now_held = get_or-set_self p.occupied slot true false in_flags;
    others = λ j ne. get_or-set_ne p.occupied slot j true false ne;
    objects = refl;
    valid = record {
      slots = v.slots;
      flags = length-set p.occupied slot true ∙ v.flags;
      once = λ i h.
          ground (arith, rw e at (v.once i h), flag_after p.occupied slot i true in_flags, free);
      within = λ i h. ground (arith, rw e at (v.within i h));
      total = omega (arith, rw e at v.total, trues-set-true p.occupied slot in_flags free);
    };
    fewer = ap length e ∙ omega arith;
  }
    where
      listed : count slot (slot ∷ rest) ≡ suc (count slot rest)
      listed = ground arith

      inside : slot < n
      inside = elim (dec_lt slot n) [
        | yes h ↦ h
        | no h ↦ absurd (omega (arith, listed, rw e at (v.within slot (omega arith))))
      ]

      in_flags : slot < length p.occupied
      in_flags = omega (arith, v.flags, inside)

      free : get_or p.occupied slot false ≡ false
      free = ground (arith, listed, rw e at (v.once slot inside))

  -- From a valid pool `acquire` fails exactly when no slot is available, and changes nothing then;
  -- otherwise it hands out a free slot of the array, and the pool stays valid.
  pub acquire_lem :
      (p : Pool T)
      → IsValid n p
      → ((available p ≡ 0) × (acquire p ≡ (none, p)))
        ⊎ ((slot : ℕ) × (p' : Pool T) × (acquire p ≡ (some slot, p')) × Acquired p slot p')
  unfolding acquire available take_slot
  acquire_lem p v = go p.available_slots refl
    where
      go :
          (xs : List ℕ)
          → p.available_slots ≡ xs
          → ((length p.available_slots ≡ 0) × (take_slot p p.available_slots ≡ (none, p)))
            ⊎ ((slot : ℕ) × (p' : Pool T) × (take_slot p p.available_slots ≡ (some slot, p'))
                × Acquired p slot p')
      go [] e = inl (ap length e, ap (take_slot p) e)
      go (slot ∷ rest) e =
          inr
            (slot, (take_slot p (slot ∷ rest)).1, ap (take_slot p) e, take_slot_lem p slot rest v e)

  generation_at-next :
      (slots : List (Slot T)) (i j : ℕ)
      → i < length slots
      → generation_at (next_generation slots i) j
        ≡ (if i == j then add_size (generation_at slots i) 1 else generation_at slots j)
  unfolding generation_at next_generation
  generation_at-next [] i j h = elim h [ ]
  generation_at-next (s ∷ slots) zero zero h = ground arith
  generation_at-next (s ∷ slots) zero (suc j) h = ground arith
  generation_at-next (s ∷ slots) (suc i) zero h = ground arith
  generation_at-next (s ∷ slots) (suc i) (suc j) h =
      ground (arith, generation_at-next slots i j (omega arith))

  length-next_generation :
      (slots : List (Slot T)) (i : ℕ) → length (next_generation slots i) ≡ length slots
  unfolding next_generation
  length-next_generation [] i = refl
  length-next_generation (s ∷ slots) zero = refl
  length-next_generation (s ∷ slots) (suc i) = ap suc (length-next_generation slots i)

  -- What giving back a held slot does.
  pub record Released (p : Pool T) (slot : ℕ) (p' : Pool T) : Type ℓ where
    pub now_free : get_or p'.occupied slot false ≡ false
    pub others : (j : ℕ) → slot ≢ j → get_or p'.occupied j false ≡ get_or p.occupied j false
    pub bumped : generation p' slot ≡ add_size (generation p slot) 1
    pub kept : (j : ℕ) → slot ≢ j → generation p' j ≡ generation p j
    pub objects : objects_of p'.pool ≡ objects_of p.pool
    pub valid : IsValid n p'
    pub more : available p' ≡ available p + 1

  -- Giving back a held slot of a valid pool passes the assertions, with or without NDEBUG; the slot
  -- becomes free under the next generation, the flags and generations of the other slots and the
  -- objects of all slots stay, one slot more is available, and the pool stays valid.
  pub release_lem :
      (ndebug : Bool) (p : Pool T) (slot : ℕ)
      → IsValid n p
      → get_or p.occupied slot false ≡ true
      → slot < n
      → (p' : Pool T) × (release ndebug n p slot ≡ some p') × Released p slot p'
  unfolding release generation available
  release_lem ndebug p slot v held inside = (
    after,
    elim (Bool-cases ndebug) [ inl e ↦ rw e | inr e ↦ rw (e, lt→ltb slot n inside, held) ],
    record {
      now_free = get_or-set_self p.occupied slot false false (omega (arith, v.flags));
      others = λ j ne. get_or-set_ne p.occupied slot j false false ne;
      bumped = ground (arith, generation_at-next p.pool slot slot (omega (arith, v.slots)));
      kept = λ j ne.
          generation_at-next p.pool slot j (omega (arith, v.slots)) ∙ rw (==-false slot j ne);
      objects = objects_of-next p.pool slot;
      valid = record {
        slots = length-next_generation p.pool slot ∙ v.slots;
        flags = length-set p.occupied slot false ∙ v.flags;
        once = λ i h.
            ground (
              arith,
              v.once i h,
              flag_after p.occupied slot i false (omega (arith, v.flags)),
              held,
            );
        within = λ i h. ground (arith, v.within i h);
        total = omega (arith, v.total, trues-set-false p.occupied slot held);
      };
      more = omega arith;
    },
  )
    where
      after : Pool T
      after = record {
        pool = next_generation p.pool slot;
        available_slots = slot ∷ p.available_slots;
        occupied = set p.occupied slot false;
      }

  -- Where its assertions hold or are compiled out, a release is a change of the generations alone, of
  -- the list and of the flag.
  pub release-kept :
      (ndebug : Bool) (p : Pool T) (slot : ℕ)
      → (ndebug || ltb slot n) ≡ true
      → (ndebug || get_or p.occupied slot false) ≡ true
      → (p' : Pool T) × (release ndebug n p slot ≡ some p')
        × (p'.available_slots ≡ slot ∷ p.available_slots)
        × (p'.occupied ≡ set p.occupied slot false)
        × (objects_of p'.pool ≡ objects_of p.pool)
  unfolding release
  release-kept ndebug p slot a b = (_, rw (a, b) refl, refl, refl, objects_of-next p.pool slot)
