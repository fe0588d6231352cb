-- ===== src/Bencode.antt =====
-- src/Bencoder/Bencode.hpp and Bendata.cpp: the value that the decoders build.
-- A std::string is the list of its bytes.
pub mod Decimal
pub mod Digits
pub mod Stream
pub mod Encode
pub mod Decode
pub mod Order
pub mod Progress
pub mod Fuel
pub mod Find
pub mod Show
pub mod Shape
pub mod Printing
pub mod Encoded
pub mod Steps
pub mod RoundTrip
pub mod Short
mod Tests
use bittorrent_application_l.Base.{
  ℕ, ◌≡◌, Bool, true, false, Option, none, some, List, [], ◌∷◌, ltb, ◌==◌, if◌then◌else◌, ℤ, pos,
}

abbrev pub Text : Type 0
Text = List ℕ

pub data BendataInitFlag : Type 0 where
  integer string dictionary list : BendataInitFlag

-- BEN_DIC_T, BEN_LIS_T, BEN_NUM_T, BEN_STR_T and BEN_DELIMETER, of type ben_t, which is char.
abbrev pub ben_dic_t : ℕ
ben_dic_t = b'd'

abbrev pub ben_lis_t : ℕ
ben_lis_t = b'l'

abbrev pub ben_num_t : ℕ
ben_num_t = b'i'

abbrev pub ben_str_t : ℕ
ben_str_t = b's'

abbrev pub ben_delimeter : ℕ
ben_delimeter = b'e'

mutual
  -- The alternatives of the variant `actual_value`.
  pub data Value : Type 0 where
    num : ℤ → Value
    str : Text → Value
    lis : Items → Value
    dic : Fields → Value

  -- `actual_value`, `bencode` and `_t`.
  pub data Bendata : Type 0 where
    bendata : Value → Text → ℕ → Bendata

  -- std::vector<Bendata>
  pub data Items : Type 0 where
    nil : Items
    cons : Bendata → Items → Items

  -- std::map<std::string, Bendata>, in the order of its keys
  pub data Fields : Type 0 where
    end : Fields
    field : Text → Bendata → Fields → Fields

abbrev pub actual_value : Bendata → Value
actual_value (bendata v b t) = v

abbrev pub get_encode : Bendata → Text
get_encode (bendata v b t) = b

abbrev pub get_t : Bendata → ℕ
get_t (bendata v b t) = t

-- Bendata(int), Bendata(std::string) and Bendata(Bendata_init_flag), with `bencode` empty.
abbrev pub of_int : ℤ → Bendata
of_int number = bendata (num number) [] ben_num_t

abbrev pub of_string : Text → Bendata
of_string text = bendata (str text) [] ben_str_t

abbrev pub of_flag : BendataInitFlag → Bendata
of_flag integer = bendata (num (pos 0)) [] ben_num_t
of_flag string = bendata (str []) [] ben_str_t
of_flag dictionary = bendata (dic end) [] ben_dic_t
of_flag list = bendata (lis nil) [] ben_lis_t

-- get_data<T>: std::get throws bad_variant_access (`none`) at another alternative.
abbrev pub num_of : Value → Option ℤ
num_of (num z) = some z
num_of _ = none

abbrev pub str_of : Value → Option Text
str_of (str s) = some s
str_of _ = none

abbrev pub lis_of : Value → Option Items
lis_of (lis xs) = some xs
lis_of _ = none

abbrev pub dic_of : Value → Option Fields
dic_of (dic fs) = some fs
dic_of _ = none

-- std::string's `<`: by the first byte that differs, a prefix first.
unfoldable pub text_ltb : Text → Text → Bool
text_ltb s [] = false
text_ltb [] (d ∷ t) = true
text_ltb (c ∷ s) (d ∷ t) = if c == d then text_ltb s t else ltb c d

-- `map[key] = value`: the pair takes its place in the order, or the old value is overwritten.
unfoldable pub assign : Text → Bendata → Fields → Fields
unfolding text_ltb
assign k v end = field k v end
assign k v (field j w fs) =
    if text_ltb k j
    then field k v (field j w fs)
    else if text_ltb j k
    then field j w (assign k v fs)
    else field j v fs
