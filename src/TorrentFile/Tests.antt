-- ===== src/TorrentFile/Tests.antt =====
-- Tests of the metainfo file.
use Prim.Native.String.{String}
use Prim.Native.Char.{code}
use bittorrent_application_l.Base.{◌≡◌, refl, some, List, [], ◌∷◌, ◌++◌, arith, pos}
use bittorrent_application_l.Bencode.{
  Text, Bendata, bendata, num, str, lis, dic, nil, cons, Fields, end, field, get_encode, text_ltb,
}
use bittorrent_application_l.Bencode.Decimal.{to_string}
use bittorrent_application_l.Bencode.Encode.{encode_int, encode, encode_to_dict, pairs}
use bittorrent_application_l.Bencode.Find.{find_field, equal}
use bittorrent_application_l.Tracker.{Tracker}
use bittorrent_application_l.Tracker.Url.{initiatlize_trackers, get_hostname}
use bittorrent_application_l.Tracker.Grouping.{urls_of, of_host, AreApart}
use bittorrent_application_l.TorrentFile.{
  TorrentFile, get_tracker_urls, announce_key, announce_list_key, made, refused, undefined,
  torrent_file, compute_download_size, hash_at,
}
use bittorrent_application_l.TorrentFile.Metainfo.{torrent_file-IsEncoded}
use bittorrent_application_l.TorrentFile.Trackers.{tier_urls, initiatlize_trackers-get_tracker_urls}

abbrev codes : String → Text
codes String.[] = []
codes (String.◌∷◌ c s) = code c ∷ codes s

abbrev url : Bendata
url = bendata (str (codes "u")) (codes "1:u") b's'

abbrev info_pairs : Fields
info_pairs = field (codes "length") (bendata (num (pos 7)) (codes "i7e") b'i') end

abbrev info : Bendata
info = bendata (dic info_pairs) (codes "d6:lengthi7ee") b'd'

abbrev file_pairs : Fields
file_pairs = field (codes "announce") url (field (codes "info") info end)

abbrev file : Bendata
file = bendata (dic file_pairs) (codes "d8:announce1:u4:infod6:lengthi7eee") b'd'

-- The sizes of several files are added.
two_files :
    compute_download_size
      (field (codes "files") (bendata (lis (cons info (cons info nil))) [] b'l') end)
    ≡ made (pos 14)
unfolding compute_download_size find_field
two_files = refl

-- The hash of a piece that the string does not hold.
past_the_hashes : hash_at (codes "short") (pos 0) ≡ refused undefined
unfolding hash_at
past_the_hashes = refl

torrent_file-IsEncoded_example :
    torrent_file (λ s. s) (some (get_encode file ++ codes "more"))
    ≡ made (record {
      transcibe = file_pairs;
      info_hash = info_pairs;
      info_hash_byte = encode_to_dict (pairs info_pairs);
      file_size = pos 7;
    })
unfolding encode_int encode encode_to_dict to_string text_ltb find_field compute_download_size
torrent_file-IsEncoded_example =
    torrent_file-IsEncoded (λ s. s) file info file_pairs info_pairs (pos 7) (codes "more")
      (
        (
          omega arith,
          (omega arith, refl, refl),
          (omega arith, (((omega arith, (omega arith, refl, refl), tt)), tt, refl, refl), tt),
        ),
        (refl, tt),
        refl,
        refl,
      )
      refl refl refl refl

-- Three urls of two hosts, in two tiers behind the first.
abbrev string_value : Text → Bendata
string_value s = bendata (str s) [] b's'

abbrev first_url : Text
first_url = codes "http://a/x"

abbrev tiers : List (List Text)
tiers = (codes "udp://b:1/" ∷ []) ∷ ((codes "http://a/y" ∷ []) ∷ [])

abbrev tier : Text → Bendata
tier u = bendata (lis (cons (string_value u) nil)) [] b'l'

abbrev tracked : TorrentFile
tracked = record {
  transcibe = field announce_key (string_value first_url) (
      field announce_list_key
        (bendata (lis (cons (tier (codes "udp://b:1/")) (cons (tier (codes "http://a/y")) nil))) []
          b'l')
        end);
  info_hash = end;
  info_hash_byte = [];
  file_size = pos 0;
}

host_a : of_host (codes "a") (first_url ∷ tier_urls tiers) ≡ first_url ∷ (codes "http://a/y" ∷ [])
unfolding of_host get_hostname equal
host_a = refl

initiatlize_trackers-get_tracker_urls_example :
    (get_tracker_urls tracked ≡ made (first_url ∷ tier_urls tiers))
    × ((ts : List (Text × Tracker)) × (initiatlize_trackers (first_url ∷ tier_urls tiers) []
          ≡ some ts)
        × AreApart ts
        × (urls_of (codes "a") ts ≡ of_host (codes "a") (first_url ∷ tier_urls tiers)))
unfolding find_field equal get_hostname
initiatlize_trackers-get_tracker_urls_example =
    initiatlize_trackers-get_tracker_urls tracked (string_value first_url) first_url tiers
      (codes "a") refl refl (_, refl, ((_, refl, (refl, tt)), ((_, refl, (refl, tt)), tt)))
      ((codes "a", refl), ((codes "b", refl), ((codes "a", refl), tt)))
