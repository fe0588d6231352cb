-- ===== src/Bencode/Short.antt =====
-- A string whose bytes end before its length.
use bittorrent_application_l.Base.{
  ℕ, zero, suc, ◌-◌, ◌^◌, ◌≤◌, ◌<◌, ◌≡◌, ◌≢◌, refl, ◌∙◌, none, some, [], ◌∷◌, ◌++◌, arith, length,
  replicate, pos,
}
use bittorrent_application_l.Bencode.{Text, bendata, str, ben_str_t}
use bittorrent_application_l.Bencode.Decimal.{to_string}
use bittorrent_application_l.Bencode.Digits.{
  All-mono, IsNumeral, to_string-numerals, noexcept_stoi-to_string,
}
use bittorrent_application_l.Bencode.Stream.{read_chars, read_until-append}
use bittorrent_application_l.Bencode.Decode.{done, string_of, bendecode_string}

-- The last byte of a text, or the byte before it.
abbrev pub last_byte : ℕ → Text → ℕ
last_byte c [] = c
last_byte c (d ∷ text) = last_byte d text

-- Past the end of the stream the last byte is read again.
read_chars_ended : (n c : ℕ) → read_chars n (some c) [] ≡ (replicate n c, [])
unfolding read_chars
read_chars_ended zero c = refl
read_chars_ended (suc n) c = rw (read_chars_ended n c)

read_chars_short :
    (n c : ℕ) (text : Text)
    → length text ≤ n
    → read_chars n (some c) text ≡ (text ++ replicate (n - length text) (last_byte c text), [])
unfolding read_chars
read_chars_short n c [] h = read_chars_ended n c ∙ rw (let e : n - 0 ≡ n = omega arith in e)
read_chars_short zero c (d ∷ text) h = absurd (omega arith)
read_chars_short (suc n) c (d ∷ text) h = rw (
  read_chars_short n d text (omega arith),
  let e : suc n - suc (length text) ≡ n - length text = omega arith in e,
)

-- A string of length `n` of which the stream holds at most `n` bytes is not refused: it is filled up
-- to its length with the last byte that was read, the colon if there was none, and `bencode` says so.
pub bendecode_string-short :
    (n : ℕ) (text : Text)
    → n < 2 ^ 31
    → length text ≤ n
    → bendecode_string (to_string (pos n) ++ (b':' ∷ text))
      ≡ done (
        bendata
            (str (text ++ replicate (n - length text) (last_byte b':' text)))
            (to_string (pos n)
              ++ (b':' ∷ (text ++ replicate (n - length text) (last_byte b':' text))))
            ben_str_t,
        [],
      )
unfolding bendecode_string string_of
bendecode_string-short n text h l = rw (
  read_until-append b':' none (to_string (pos n)) text (
      All-mono IsNumeral (λ d. d ≢ b':') (λ d le e. omega arith) (to_string (pos n))
        (to_string-numerals (pos n))),
  noexcept_stoi-to_string (pos n) h,
  read_chars_short n b':' text l,
)
