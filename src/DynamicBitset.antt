-- ===== src/DynamicBitset.antt =====
-- src/Client/DynamicBitset.hpp and DynamicBitset.cpp: bits in a vector of 64-bit words.
pub mod Laws
pub mod Combining
mod Tests
use bittorrent_application_l.Base.{
  ℕ, zero, suc, ◌-◌, ◌*◌, ◌/◌, ◌%◌, ◌^◌, bit_and, bit_or, Bool, false, not, ◌||◌, leb, ◌==◌,
  if◌then◌else◌, List, [], ◌∷◌, Option, none, some, length, get_or, set, replicate, require, ◌>>◌,
  ◌>>=◌, add_size,
}

pub record Bitset : Type 0 where
  pub bitfield : List ℕ
  pub length_ : ℕ

-- The number of words, whatever its name says.
unfoldable pub get_bytes_for_bits : ℕ → ℕ
get_bytes_for_bits bits = add_size (bits / 64) (if bit_and bits 63 == 0 then 0 else 1)

unfoldable pub of_count : ℕ → Bitset
unfolding get_bytes_for_bits
of_count count = record { bitfield = replicate (get_bytes_for_bits count) 0; length_ = count }

-- std::uint64_t(1) << bit_index
unfoldable pub bit_of : ℕ → ℕ
bit_of index = 2 ^ bit_and index 63

unfoldable pub test : Bitset → ℕ → Bool
unfolding bit_of
test b index =
    if leb b.length_ index
    then false
    else not (bit_and (get_or b.bitfield (index / 64) 0) (bit_of index) == 0)

unfoldable pub set_bit : Bitset → ℕ → Bitset
unfolding bit_of
set_bit b index = if leb b.length_ index then b else record b {
  bitfield = set b.bitfield (index / 64) (bit_or (get_or b.bitfield (index / 64) 0) (bit_of index));
}

-- ~mask on 64 bits is 2^64 - 1 - mask.
unfoldable pub reset_bit : Bitset → ℕ → Bitset
unfolding bit_of
reset_bit b index = if leb b.length_ index then b else record b {
  bitfield =
      set b.bitfield (index / 64)
        (bit_and (get_or b.bitfield (index / 64) 0) (2 ^ 64 - 1 - bit_of index));
}

zeros : List ℕ → List ℕ
zeros [] = []
zeros (w ∷ ws) = 0 ∷ zeros ws

unfoldable pub reset_set : Bitset → Bitset
unfolding zeros
reset_set b = record b { bitfield = zeros b.bitfield }

-- bitfield[i] op= other.bitfield[i]; `none` is an access past the other's end, which is undefined.
unfoldable pub combine : (ℕ → ℕ → ℕ) → List ℕ → List ℕ → Option (List ℕ)
combine op [] ws = some []
combine op (v ∷ vs) [] = none
combine op (v ∷ vs) (w ∷ ws) = do rest ← combine op vs ws; some (op v w ∷ rest)

-- `none` is the failed assertion on the lengths, or such an access.
unfoldable pub or_assign : Bool → Bitset → Bitset → Option Bitset
unfolding combine
or_assign ndebug b other = do
  require (ndebug || b.length_ == other.length_)
  words ← combine bit_or b.bitfield other.bitfield
  some (record b { bitfield = words })

unfoldable pub and_assign : Bool → Bitset → Bitset → Option Bitset
unfolding combine
and_assign ndebug b other = do
  require (ndebug || b.length_ == other.length_)
  words ← combine bit_and b.bitfield other.bitfield
  some (record b { bitfield = words })

unfoldable pub size : Bitset → ℕ
size b = b.length_

-- The bytes of one word, the first lowest; `offset` is its place in the word.
unfoldable pub words_of : ℕ → List ℕ → List ℕ → List ℕ
words_of offset [] fields = fields
words_of offset (byte ∷ view) [] = []
words_of offset (byte ∷ view) (w ∷ fields) =
    let field = bit_or w (byte * 2 ^ (8 * offset)) in
    elim (suc offset % 8) [
      | zero ↦ field ∷ words_of 0 view fields
      | suc k ↦ words_of (suc offset) view (field ∷ fields)
    ]

unfoldable pub of_bytes : List ℕ → Bitset
unfolding get_bytes_for_bits words_of
of_bytes view = record {
  bitfield = words_of 0 view (replicate (get_bytes_for_bits (length view * 8)) 0);
  length_ = length view * 8;
}
