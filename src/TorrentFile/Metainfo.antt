-- ===== src/TorrentFile/Metainfo.antt =====
-- A metainfo file that the encoders wrote.
use bittorrent_application_l.Base.{
  ℕ, ◌≡◌, refl, subst, inl, inr, Option, none, some, List, ◌++◌, ℤ, Bool-cases,
}
use bittorrent_application_l.Bencode.{
  Text, Bendata, bendata, Value, num, str, lis, dic, Fields, end, field, actual_value, get_encode,
}
use bittorrent_application_l.Bencode.Stream.{Stream}
use bittorrent_application_l.Bencode.Encode.{encode_to_dict, pairs}
use bittorrent_application_l.Bencode.Encoded.{IsEncoded, AreEncodedFields}
use bittorrent_application_l.Bencode.RoundTrip.{bendecode_from_file-IsEncoded}
use bittorrent_application_l.Bencode.Find.{equal, find_field}
use bittorrent_application_l.TorrentFile.{
  made, info_key, compute_download_size, read_dictionaries, get_info_key, torrent_file, parsed, got,
  field_at, second, caught,
}

abbrev EncodedIf : Option Bendata → Type 0
EncodedIf none = Unit {0}
EncodedIf (some v) = IsEncoded v

find_field-EncodedIf : (k : Text) (fs : Fields) → AreEncodedFields fs → EncodedIf (find_field k fs)
unfolding find_field
find_field-EncodedIf k end h = tt
find_field-EncodedIf k (field j v fs) (l, s, h) = elim (Bool-cases (equal k j)) [
  | inl e ↦ rw e s
  | inr e ↦ rw e (find_field-EncodedIf k fs h)
]

-- The pairs of an encoded dictionary.
dictionary-AreEncoded :
    (v : Bendata) (fs : Fields) → IsEncoded v → actual_value v ≡ dic fs → AreEncodedFields fs
dictionary-AreEncoded (bendata (dic gs) b t) fs h e = subst fields_of e h.0
  where
    fields_of : Value → Type 0
    fields_of (dic fs) = AreEncodedFields fs
    fields_of _ = Unit {0}
dictionary-AreEncoded (bendata (num z) b t) fs h e = cc
dictionary-AreEncoded (bendata (str s) b t) fs h e = cc
dictionary-AreEncoded (bendata (lis xs) b t) fs h e = cc

dictionary_text :
    (v : Bendata) (fs : Fields)
    → IsEncoded v
    → actual_value v ≡ dic fs
    → get_encode v ≡ encode_to_dict (pairs fs)
dictionary_text (bendata (dic gs) b t) fs (h, o, x, y) e = subst text_of e x
  where
    text_of : Value → Type 0
    text_of (dic fs) = b ≡ encode_to_dict (pairs fs)
    text_of _ = Unit {0}
dictionary_text (bendata (num z) b t) fs h e = cc
dictionary_text (bendata (str s) b t) fs h e = cc
dictionary_text (bendata (lis xs) b t) fs h e = cc

get_info_key-some :
    (fs : Fields) {i : Bendata}
    → find_field info_key fs ≡ some i
    → get_info_key fs ≡ made (get_encode i)
unfolding get_info_key second
get_info_key-some fs f = rw f refl

-- A file that begins with an encoded dictionary whose info is a dictionary of known size, whatever
-- SHA-1 is: the torrent file has both dictionaries and the size, and its info hash is of what
-- encode_to_dict writes for the info's pairs.
pub torrent_file-IsEncoded :
    (sha1 : Text → List ℕ) (v i : Bendata) (fs info : Fields) (n : ℤ) (rest : Stream)
    → IsEncoded v
    → actual_value v ≡ dic fs
    → find_field info_key fs ≡ some i
    → actual_value i ≡ dic info
    → compute_download_size info ≡ made n
    → torrent_file sha1 (some (get_encode v ++ rest))
      ≡ made (record {
        transcibe = fs;
        info_hash = info;
        info_hash_byte = sha1 (encode_to_dict (pairs info));
        file_size = n;
      })
unfolding torrent_file read_dictionaries parsed got field_at second caught
torrent_file-IsEncoded sha1 v i fs info n rest h d f e s =
    let g : IsEncoded i =
      subst EncodedIf f (find_field-EncodedIf info_key fs (dictionary-AreEncoded v fs h d)) in
    rw
      (
        bendecode_from_file-IsEncoded v rest h,
        d,
        f,
        e,
        s,
        get_info_key-some fs f,
        dictionary_text i info g e,
      )
      refl
