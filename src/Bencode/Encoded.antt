-- ===== src/Bencode/Encoded.antt =====
-- What an encoder writes, and how the decoders read its strings and numbers back.
use bittorrent_application_l.Base.{
  ◌^◌, ◌<◌, ◌≡◌, ◌≢◌, refl, false, none, some, [], ◌∷◌, ◌++◌, append_assoc, arith, length, ℤ, pos,
  IsInt,
}
use bittorrent_application_l.Bencode.{
  Text, Bendata, bendata, num, str, lis, dic, Items, nil, cons, Fields, end, field, get_encode,
  ben_num_t, ben_str_t, ben_lis_t, ben_dic_t, ben_delimeter,
}
use bittorrent_application_l.Bencode.Decimal.{to_string, is_space}
use bittorrent_application_l.Bencode.Digits.{
  noexcept_stoi-to_string, to_string-numerals, decimal_head, All-mono, IsNumeral,
}
use bittorrent_application_l.Bencode.Stream.{
  Stream, skip_spaces, read_delimeter, read_until-append, read_chars-append,
}
use bittorrent_application_l.Bencode.Encode.{
  encode_int, encode, encode_to_list, encode_to_dict, encodes, pairs, encode_to_list-encodes,
  IsSorted,
}
use bittorrent_application_l.Bencode.Order.{encode_to_dict-pairs}
use bittorrent_application_l.Bencode.Decode.{
  done, string_of, bendecode_string, integer_of, bendecode_integer,
}

-- A value as the encoders write it: ints in range, texts with a length that is an int, keys in order,
-- each text the encoder's and each tag the alternative's.
abbrev mutual
  pub IsEncoded : Bendata → Type 0
  IsEncoded (bendata (num z) text t) = IsInt z × (text ≡ encode_int z) × (t ≡ ben_num_t)
  IsEncoded (bendata (str s) text t) = (length s < 2 ^ 31) × (text ≡ encode s) × (t ≡ ben_str_t)
  IsEncoded (bendata (lis xs) text t) =
      AreEncoded xs × (text ≡ encode_to_list (encodes xs)) × (t ≡ ben_lis_t)
  IsEncoded (bendata (dic fs) text t) =
      AreEncodedFields fs × IsSorted fs × (text ≡ encode_to_dict (pairs fs)) × (t ≡ ben_dic_t)

  pub AreEncoded : Items → Type 0
  AreEncoded nil = Unit {0}
  AreEncoded (cons v xs) = IsEncoded v × AreEncoded xs

  pub AreEncodedFields : Fields → Type 0
  AreEncodedFields end = Unit {0}
  AreEncodedFields (field k v fs) = (length k < 2 ^ 31) × IsEncoded v × AreEncodedFields fs

-- A text's first byte is no white space, and does not end a list.
abbrev pub Starts : Text → Type 0
Starts [] = ⊥
Starts (c ∷ s) = (is_space c ≡ false) × (c ≢ ben_delimeter)

pub encode-Starts : (s t : Text) → Starts (encode s ++ t)
unfolding encode
encode-Starts s t =
    let (c, r, e, d) = decimal_head (length s) in rw e (ground arith, λ q. omega arith)

pub IsEncoded-Starts : (v : Bendata) (t : Text) → IsEncoded v → Starts (get_encode v ++ t)
unfolding encode_int
IsEncoded-Starts (bendata (num z) b w) t (h, e, g) = rw e (refl, λ q. omega arith)
IsEncoded-Starts (bendata (str s) b w) t (h, e, g) = rw e (encode-Starts s t)
IsEncoded-Starts (bendata (lis xs) b w) t (h, e, g) =
    rw (e, encode_to_list-encodes xs) (refl, λ q. omega arith)
IsEncoded-Starts (bendata (dic fs) b w) t (h, o, e, g) =
    rw (e, encode_to_dict-pairs fs o) (refl, λ q. omega arith)

pub skip_spaces-Starts : (s : Text) → Starts s → skip_spaces s ≡ s
unfolding skip_spaces
skip_spaces-Starts [] h = absurd h
skip_spaces-Starts (c ∷ s) (h, n) = rw h

-- A string is read back.
pub bendecode_string-encode :
    (s : Text) (rest : Stream)
    → length s < 2 ^ 31
    → bendecode_string (encode s ++ rest) ≡ done (bendata (str s) (encode s) ben_str_t, rest)
unfolding bendecode_string encode string_of
bendecode_string-encode s rest h = rw (append_assoc (to_string (pos (length s))) (b':' ∷ s) rest) (
    rw (
      read_until-append b':' none (to_string (pos (length s))) (s ++ rest) (
          All-mono IsNumeral (λ d. d ≢ b':') (λ d le e. omega arith) (to_string (pos (length s)))
            (to_string-numerals (pos (length s)))),
      noexcept_stoi-to_string (pos (length s)) h,
      read_chars-append s (some b':') rest,
    ))

pub bendecode_integer-encode :
    (z : ℤ) (rest : Stream)
    → IsInt z
    → bendecode_integer (encode_int z ++ rest)
      ≡ done (bendata (num z) (encode_int z) ben_num_t, rest)
unfolding bendecode_integer encode_int integer_of read_delimeter
bendecode_integer-encode z rest h = rw (append_assoc (to_string z) (ben_delimeter ∷ []) rest) (
    rw (
      read_until-append b'e' none (to_string z) rest (
          All-mono IsNumeral (λ d. d ≢ b'e') (λ d le e. omega arith) (to_string z)
            (to_string-numerals z)),
      noexcept_stoi-to_string z h,
    ))
