-- ===== src/Bencode/Encode.antt =====
-- src/Bencoder/Benencoder.cpp: the encoders.
use bittorrent_application_l.Base.{
  ◌≡◌, sym, ap, ◌∙◌, List, [], ◌∷◌, ◌++◌, append-nil, append_assoc, length, ℤ, pos, if◌then◌else◌,
  true,
}
use bittorrent_application_l.Bencode.{
  Text, Items, nil, cons, Fields, end, field, get_encode, text_ltb, ben_num_t, ben_lis_t, ben_dic_t,
  ben_delimeter,
}
use bittorrent_application_l.Bencode.Decimal.{to_string}

-- A pair of a key and an encoded value.
pub record BenDictPair : Type 0 where
  pub key : Text
  pub bencoded_value : Text

-- Bendata::encode(int)
unfoldable pub encode_int : ℤ → Text
encode_int value = ben_num_t ∷ (to_string value ++ (ben_delimeter ∷ []))

-- Bendata::encode(const std::string&)
unfoldable pub encode : Text → Text
encode value = to_string (pos (length value)) ++ (b':' ∷ value)

-- `for (auto& i : items) res += i;`
unfoldable pub append_all : Text → List Text → Text
append_all res [] = res
append_all res (i ∷ items) = append_all (res ++ i) items

unfoldable pub encode_to_list : List Text → Text
unfolding append_all
encode_to_list items = append_all (ben_lis_t ∷ []) items ++ (ben_delimeter ∷ [])

unfoldable pub insert_pair : BenDictPair → List BenDictPair → List BenDictPair
insert_pair a [] = a ∷ []
insert_pair a (b ∷ items) =
    if text_ltb b.key a.key then b ∷ insert_pair a items else a ∷ (b ∷ items)

-- std::sort by the keys; pairs of one key keep their order here.
unfoldable pub sort_pairs : List BenDictPair → List BenDictPair
unfolding insert_pair
sort_pairs [] = []
sort_pairs (a ∷ items) = insert_pair a (sort_pairs items)

-- `for (auto& pair : items) encoded_result += encode(pair.key) + pair.bencoded_value;`
unfoldable pub append_pairs : Text → List BenDictPair → Text
append_pairs result [] = result
append_pairs result (p ∷ items) = append_pairs (result ++ (encode p.key ++ p.bencoded_value)) items

unfoldable pub encode_to_dict : List BenDictPair → Text
unfolding append_pairs sort_pairs
encode_to_dict items = append_pairs (ben_dic_t ∷ []) (sort_pairs items) ++ (ben_delimeter ∷ [])

-- The encoded items of a vector, and the pairs of a map.
abbrev pub encodes : Items → List Text
encodes nil = []
encodes (cons v xs) = get_encode v ∷ encodes xs

abbrev pub pairs : Fields → List BenDictPair
pairs end = []
pairs (field k v fs) = record { key = k; bencoded_value = get_encode v } ∷ pairs fs

-- What the loops append.
abbrev pub items_text : Items → Text
items_text nil = []
items_text (cons v xs) = get_encode v ++ items_text xs

abbrev pub fields_text : Fields → Text
fields_text end = []
fields_text (field k v fs) = encode k ++ (get_encode v ++ fields_text fs)

append_all-encodes : (res : Text) (xs : Items) → append_all res (encodes xs) ≡ res ++ items_text xs
unfolding append_all
append_all-encodes res nil = sym (append-nil res)
append_all-encodes res (cons v xs) =
    append_all-encodes (res ++ get_encode v) xs ∙ append_assoc res (get_encode v) (items_text xs)

pub encode_to_list-encodes :
    (xs : Items) → encode_to_list (encodes xs) ≡ ben_lis_t ∷ (items_text xs ++ (ben_delimeter ∷ []))
unfolding encode_to_list
encode_to_list-encodes xs = rw (append_all-encodes (ben_lis_t ∷ []) xs)

-- Each key is below the keys after it.
abbrev pub IsAbove : Text → Fields → Type 0
IsAbove k end = Unit {0}
IsAbove k (field j v fs) = (text_ltb k j ≡ true) × IsAbove j fs

abbrev pub IsSorted : Fields → Type 0
IsSorted end = Unit {0}
IsSorted (field k v fs) = IsAbove k fs

pub append_pairs-pairs :
    (res : Text) (fs : Fields) → append_pairs res (pairs fs) ≡ res ++ fields_text fs
unfolding append_pairs
append_pairs-pairs res end = sym (append-nil res)
append_pairs-pairs res (field k v fs) =
    append_pairs-pairs (res ++ (encode k ++ get_encode v)) fs
    ∙ append_assoc res (encode k ++ get_encode v) (fields_text fs)
    ∙ ap (◌++◌ res) (append_assoc (encode k) (get_encode v) (fields_text fs))
