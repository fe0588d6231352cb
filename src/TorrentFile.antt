-- ===== src/TorrentFile.antt =====
-- src/Client/TorrentFile.cpp: a metainfo file, read through the bencode decoder.
pub mod Metainfo
pub mod Trackers
mod Tests
use bittorrent_application_l.Base.{
  ℕ, ◌+◌, ◌*◌, ◌^◌, Bool, true, false, Option, none, some, List, [], ◌∷◌, ◌++◌, ℤ, pos, negsuc,
  ◌+ℤ◌, ltb, leb, length, take, drop, if◌then◌else◌, ◌&&◌,
}
use bittorrent_application_l.Bencode.{
  Text, Bendata, Items, nil, cons, Fields, actual_value, get_encode, num_of, str_of, lis_of, dic_of,
}
use bittorrent_application_l.Bencode.Stream.{Stream}
use bittorrent_application_l.Bencode.Decode.{
  Decoded, done, failed, out_of_fuel, bendecode_from_file,
}
use bittorrent_application_l.Bencode.Find.{find_field}

-- Why there is no result: the two exceptions that the constructor throws, one of std::get that
-- nothing catches, and a use of map::end() or a read past a string, which is undefined.
pub data Refusal : Type 0 where
  torrent_file_not_found invalid_torrent_file bad_variant_access undefined : Refusal

pub data Outcome (A : Type 0) : Type 0 where
  made : A → Outcome A
  refused : Refusal → Outcome A

infixl 5 ◌>>=◌
abbrev pub ◌>>=◌ : {A B : Type 0} → Outcome A → (A → Outcome B) → Outcome B
made a >>= f = f a
refused r >>= f = refused r

-- `*info_hash` is the dictionary below the key info.
pub record TorrentFile : Type 0 where
  pub transcibe : Fields
  pub info_hash : Fields
  pub info_hash_byte : List ℕ
  pub file_size : ℤ

-- find(…)->second
unfoldable pub second : Option Bendata → Outcome Bendata
second none = refused undefined
second (some v) = made v

-- get_data<T>
unfoldable pub got : {A : Type 0} → Option A → Outcome A
got none = refused bad_variant_access
got (some a) = made a

unfoldable pub field_at : Text → Fields → Outcome Bendata
unfolding second
field_at k fs = second (find_field k fs)

abbrev pub info_key : Text
info_key = b'i' ∷ (b'n' ∷ (b'f' ∷ (b'o' ∷ [])))

abbrev pub length_key : Text
length_key = b'l' ∷ (b'e' ∷ (b'n' ∷ (b'g' ∷ (b't' ∷ (b'h' ∷ [])))))

abbrev pub files_key : Text
files_key = b'f' ∷ (b'i' ∷ (b'l' ∷ (b'e' ∷ (b's' ∷ []))))

abbrev pub announce_key : Text
announce_key = b'a' ∷ (b'n' ∷ (b'n' ∷ (b'o' ∷ (b'u' ∷ (b'n' ∷ (b'c' ∷ (b'e' ∷ [])))))))

abbrev pub announce_list_key : Text
announce_list_key = announce_key ++ (b'-' ∷ (b'l' ∷ (b'i' ∷ (b's' ∷ (b't' ∷ [])))))

abbrev pub name_key : Text
name_key = b'n' ∷ (b'a' ∷ (b'm' ∷ (b'e' ∷ [])))

abbrev pub piece_length_key : Text
piece_length_key = b'p' ∷ (b'i' ∷ (b'e' ∷ (b'c' ∷ (b'e' ∷ (32 ∷ length_key)))))

abbrev pub pieces_key : Text
pieces_key = b'p' ∷ (b'i' ∷ (b'e' ∷ (b'c' ∷ (b'e' ∷ (b's' ∷ [])))))

is_found : Option Bendata → Bool
is_found none = false
is_found (some v) = true

-- torrent_is_file
unfoldable pub torrent_is_file : Fields → Bool
unfolding is_found
torrent_is_file info_hash = is_found (find_field length_key info_hash)

-- `get_data<ben::num>()` of a key.
unfoldable pub number_at : Text → Fields → Outcome ℤ
unfolding field_at got
number_at k fs = field_at k fs >>= λ v. got (num_of (actual_value v))

-- `for (auto& file : files) file_size += …`
unfoldable pub add_lengths : ℤ → Items → Outcome ℤ
unfolding number_at
add_lengths file_size nil = made file_size
add_lengths file_size (cons file files) = do
  fs ← got (dic_of (actual_value file))
  n ← number_at length_key fs
  add_lengths (file_size +ℤ n) files

unfoldable pub compute_download_size : Fields → Outcome ℤ
unfolding torrent_is_file number_at add_lengths
compute_download_size info_hash =
    if torrent_is_file info_hash
    then number_at length_key info_hash
    else (field_at files_key info_hash >>= λ v.
        got (lis_of (actual_value v)) >>= add_lengths (pos 0))

-- bendecode_from_file, whose failure is an exception.
unfoldable pub parsed : Decoded → Outcome Bendata
parsed (done (v, rest)) = made v
parsed failed = refused invalid_torrent_file
parsed out_of_fuel = refused invalid_torrent_file

-- `catch (...) { throw Invalid_Torrent_File{}; }`
unfoldable pub caught : {A : Type 0} → Outcome A → Outcome A
caught (made a) = made a
caught (refused undefined) = refused undefined
caught (refused r) = refused invalid_torrent_file

-- The body of the try block: the file's dictionary and the one below info.
unfoldable pub read_dictionaries : Stream → Outcome (Fields × Fields)
unfolding parsed got field_at
read_dictionaries file = do
  parsed_bendata ← parsed (bendecode_from_file file)
  transcibe ← got (dic_of (actual_value parsed_bendata))
  second_value ← field_at info_key transcibe
  info_hash ← got (dic_of (actual_value second_value))
  made (transcibe, info_hash)

-- get_info_key
unfoldable pub get_info_key : Fields → Outcome Text
unfolding field_at
get_info_key transcibe = field_at info_key transcibe >>= λ v. made (get_encode v)

-- `none` is a file that cannot be opened; Crypto++'s SHA-1 is an argument.
unfoldable pub torrent_file : (Text → List ℕ) → Option Stream → Outcome TorrentFile
unfolding caught read_dictionaries compute_download_size get_info_key
torrent_file sha1 none = refused torrent_file_not_found
torrent_file sha1 (some file) = do
  (transcibe, info_hash) ← caught (read_dictionaries file)
  file_size ← compute_download_size info_hash
  hashed ← get_info_key transcibe
  made (record {
    transcibe = transcibe;
    info_hash = info_hash;
    info_hash_byte = sha1 hashed;
    file_size = file_size;
  })

-- The urls of one tier, and of the tiers of the announce list.
unfoldable pub push_tier : List Text → Items → Outcome (List Text)
unfolding got
push_tier trackers nil = made trackers
push_tier trackers (cons url urls) = do
  s ← got (str_of (actual_value url))
  push_tier (trackers ++ (s ∷ [])) urls

unfoldable pub push_tiers : List Text → Items → Outcome (List Text)
unfolding push_tier
push_tiers trackers nil = made trackers
push_tiers trackers (cons tier tiers) = do
  urls ← got (lis_of (actual_value tier))
  pushed ← push_tier trackers urls
  push_tiers pushed tiers

push_list : List Text → Option Bendata → Outcome (List Text)
unfolding push_tiers
push_list trackers none = made trackers
push_list trackers (some v) = got (lis_of (actual_value v)) >>= push_tiers trackers

unfoldable pub get_tracker_urls : TorrentFile → Outcome (List Text)
unfolding push_list field_at
get_tracker_urls f = do
  v ← field_at announce_key f.transcibe
  s ← got (str_of (actual_value v))
  push_list (s ∷ []) (find_field announce_list_key f.transcibe)

unfoldable pub get_torrent_name : TorrentFile → Outcome Text
unfolding field_at got
get_torrent_name f = field_at name_key f.info_hash >>= λ v. got (str_of (actual_value v))

unfoldable pub get_piece_length : TorrentFile → Outcome ℤ
unfolding number_at
get_piece_length f = number_at piece_length_key f.info_hash

abbrev pub hash_string_length : ℕ
hash_string_length = 20

-- The view of twenty bytes at `index * 20`, an int; past the string, or past an int, it is undefined.
unfoldable pub hash_at : Text → ℤ → Outcome Text
hash_at pieces_hash (negsuc n) = refused undefined
hash_at pieces_hash (pos index) =
    let hash_index = index * hash_string_length in
    if ltb hash_index (2 ^ 31) && leb (hash_index + hash_string_length) (length pieces_hash)
    then made (take hash_string_length (drop hash_index pieces_hash))
    else (refused undefined)

unfoldable pub get_piece_hash : TorrentFile → ℤ → Outcome Text
unfolding field_at got hash_at
get_piece_hash f index = do
  v ← field_at pieces_key f.info_hash
  pieces_hash ← got (str_of (actual_value v))
  hash_at pieces_hash index

abbrev pub get_download_size : TorrentFile → ℤ
get_download_size f = f.file_size

abbrev pub get_info_hash_bytes : TorrentFile → List ℕ
get_info_hash_bytes f = f.info_hash_byte
