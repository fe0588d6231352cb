-- ===== src/Hasher.antt =====
-- src/Client/Hasher.hpp and Hasher.cpp: FNV-1a and the two printers of a hash. SHA-1 is Crypto++'s.
use bittorrent_application_l.Base.{
  ℕ, ◌+◌, ◌-◌, ◌*◌, ◌/◌, ◌%◌, ◌^◌, ◌<◌, ◌≡◌, refl, List, [], ◌∷◌, ◌++◌, append_assoc, append-nil,
  ◌∙◌, sym, arith, bit_xor, ltb, if◌then◌else◌,
}

abbrev pub fnv_prime_64 : ℕ
fnv_prime_64 = 1099511628211

abbrev pub offset_basis_64 : ℕ
offset_basis_64 = 14695981039346656037

-- `(hashed_value ^ byte) * FNV_prime_64` on 64 bits
fnv_step : ℕ → ℕ → ℕ
fnv_step hashed_value byte = (bit_xor hashed_value byte * fnv_prime_64) % 2 ^ 64

fnv_loop : ℕ → List ℕ → ℕ
unfolding fnv_step
fnv_loop hashed_value [] = hashed_value
fnv_loop hashed_value (byte ∷ sequence) = fnv_loop (fnv_step hashed_value byte) sequence

fnv_1a_64bits : List ℕ → ℕ
unfolding fnv_loop
fnv_1a_64bits sequence = fnv_loop offset_basis_64 sequence

hex_digit : ℕ → ℕ
hex_digit d = if ltb d 10 then b'0' + d else b'a' + (d - 10)

-- An unsigned number below 256 in std::hex, with a nought before a single digit.
hex_of_byte : ℕ → List ℕ
unfolding hex_digit
hex_of_byte decimal_value =
    if ltb decimal_value 16
    then b'0' ∷ (hex_digit decimal_value ∷ [])
    else hex_digit (decimal_value / 16) ∷ (hex_digit (decimal_value % 16) ∷ [])

hex_stringify_hash : List ℕ → List ℕ
unfolding hex_of_byte
hex_stringify_hash [] = []
hex_stringify_hash (byt ∷ byte_sequence) = hex_of_byte byt ++ hex_stringify_hash byte_sequence

-- `for (auto byt : byte_sequence) byte_string += byt;`
append_bytes : List ℕ → List ℕ → List ℕ
append_bytes byte_string [] = byte_string
append_bytes byte_string (byt ∷ byte_sequence) =
    append_bytes (byte_string ++ (byt ∷ [])) byte_sequence

byte_stringify_hash : List ℕ → List ℕ
unfolding append_bytes
byte_stringify_hash byte_sequence = append_bytes [] byte_sequence

fnv_loop-lt : (h : ℕ) (s : List ℕ) → h < 2 ^ 64 → fnv_loop h s < 2 ^ 64
unfolding fnv_loop fnv_step
fnv_loop-lt h [] l = l
fnv_loop-lt h (b ∷ s) l = fnv_loop-lt ((bit_xor h b * fnv_prime_64) % 2 ^ 64) s (omega arith)

-- A hash fits 64 bits.
fnv_1a_64bits-lt : (s : List ℕ) → fnv_1a_64bits s < 2 ^ 64
unfolding fnv_1a_64bits
fnv_1a_64bits-lt s = fnv_loop-lt offset_basis_64 s (omega arith)

append_bytes-append : (t s : List ℕ) → append_bytes t s ≡ t ++ s
unfolding append_bytes
append_bytes-append t [] = sym (append-nil t)
append_bytes-append t (b ∷ s) = append_bytes-append (t ++ (b ∷ [])) s ∙ append_assoc t (b ∷ []) s

-- The string has the bytes of the hash.
byte_stringify_hash-id : (s : List ℕ) → byte_stringify_hash s ≡ s
unfolding byte_stringify_hash
byte_stringify_hash-id s = append_bytes-append [] s

-- The published hash of the text "a".
fnv_of_a : fnv_1a_64bits (b'a' ∷ []) ≡ 0xaf63dc4c8601ec8c
unfolding fnv_1a_64bits
fnv_of_a = refl

hex_of_two : hex_stringify_hash (10 ∷ (255 ∷ [])) ≡ b'0' ∷ (b'a' ∷ (b'f' ∷ (b'f' ∷ [])))
unfolding hex_stringify_hash
hex_of_two = refl
