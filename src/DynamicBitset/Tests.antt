-- ===== src/DynamicBitset/Tests.antt =====
-- A bitset of 70 bits, and the theorems there.
use bittorrent_application_l.Base.{
  ◌≡◌, refl, true, false, [], ◌∷◌, ◌==◌, ◌&&◌, ◌||◌, if◌then◌else◌, none, some, arith,
}
use bittorrent_application_l.DynamicBitset.{
  Bitset, test, set_bit, of_count, of_bytes, or_assign, and_assign,
}
use bittorrent_application_l.DynamicBitset.Laws.{HasWords, test-set_bit}
use bittorrent_application_l.DynamicBitset.Combining.{test-assign}

abbrev seventy : Bitset
seventy = record { bitfield = 5 ∷ 1 ∷ []; length_ = 70 }

seventy-HasWords : HasWords seventy
seventy-HasWords = omega arith

words : (of_count 70).bitfield ≡ 0 ∷ 0 ∷ []
unfolding of_count
words = refl

-- The low bit of the first byte is bit 0.
low_first : (of_bytes (1 ∷ 128 ∷ [])).bitfield ≡ 32769 ∷ []
unfolding of_bytes
low_first = refl

test-set_bit_example : test (set_bit seventy 66) 66 ≡ (if 66 == 66 then true else test seventy 66)
test-set_bit_example = test-set_bit seventy 66 66 seventy-HasWords (omega arith)

abbrev other_seventy : Bitset
other_seventy = record { bitfield = 6 ∷ 2 ∷ []; length_ = 70 }

-- A bitset that was moved from keeps its length and has no words.
no_words : or_assign false seventy (record seventy { bitfield = [] }) ≡ none
unfolding or_assign
no_words = refl

test-assign_example :
    ((r : Bitset) × (or_assign false seventy other_seventy ≡ some r)
      × (test r 65 ≡ (test seventy 65 || test other_seventy 65)))
    × ((r : Bitset) × (and_assign false seventy other_seventy ≡ some r)
        × (test r 65 ≡ (test seventy 65 && test other_seventy 65)))
test-assign_example = test-assign false seventy other_seventy 65 seventy-HasWords (omega arith) refl
