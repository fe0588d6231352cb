-- ===== src/Tracker/Url.antt =====
-- src/Client/TrackerManager.cpp: the host name of a url, and the trackers of a list of urls;
-- src/Client/Tracker.cpp: the urls of a tracker.
use bittorrent_application_l.Base.{
  ℕ, suc, zero, ◌+◌, ◌-◌, Bool, true, false, ◌&&◌, ◌||◌, Option, none, some, List, [], ◌∷◌, ◌++◌, ℤ,
  pos, negsuc, length, take, drop, leb, ltb, ◌==◌, if◌then◌else◌, ◌>>=◌, add_size,
}
use bittorrent_application_l.Bencode.{Text}
use bittorrent_application_l.Bencode.Find.{equal}
use bittorrent_application_l.Tracker.{Tracker, tracker}

-- std::string_view::starts_with
unfoldable pub starts_with : Text → Text → Bool
starts_with s [] = true
starts_with [] (c ∷ p) = false
starts_with (c ∷ s) (d ∷ p) = c == d && starts_with s p

abbrev pub http : Text
http = b'h' ∷ b't' ∷ b't' ∷ b'p' ∷ []

abbrev pub scheme_end : Text
scheme_end = b':' ∷ b'/' ∷ b'/' ∷ []

abbrev after : Option ℕ → Option ℕ
after none = none
after (some i) = some (suc i)

-- find; `none` is npos.
unfoldable pub find : Text → Text → Option ℕ
unfolding starts_with
find p [] = if starts_with [] p then some 0 else none
find p (c ∷ s) = if starts_with (c ∷ s) p then some 0 else after (find p s)

-- find_last_of one byte
unfoldable pub find_last : ℕ → Text → Option ℕ
find_last d [] = none
find_last d (c ∷ s) = elim (find_last d s) [
  | some i ↦ some (suc i)
  | none ↦ if c == d then some 0 else none
]

-- A position as an int: npos is -1. For a url that is no longer than the greatest int.
abbrev to_int : Option ℕ → ℤ
to_int none = negsuc 0
to_int (some i) = pos i

-- `npos + 3` is 2.
abbrev hostname_start : Option ℕ → ℕ
hostname_start none = 2
hostname_start (some i) = i + 3

-- `port_character_index < hostname_start_index ? … : …`
abbrev hostname_end : ℤ → ℕ → ℤ → ℤ
hostname_end (negsuc n) start slash = slash
hostname_end (pos i) start slash = if ltb i start then slash else pos i

-- The difference as the count of substr: a negative one is past any length.
abbrev substr_count : ℤ → ℕ → ℕ → ℕ
substr_count (negsuc n) start size = size
substr_count (pos i) start size = if ltb i start then size else i - start

-- `none` is the out_of_range that substr throws.
unfoldable pub get_hostname : Text → Option Text
unfolding find find_last
get_hostname url =
    let start = hostname_start (find scheme_end url) in
    let last = hostname_end (to_int (find_last b':' url)) start (to_int (find_last b'/' url)) in
    if leb start (length url)
    then some (take (substr_count last start (length url)) (drop start url))
    else none

-- tag_http_presence
abbrev pub tag_http_presence : Text → Tracker → Tracker
tag_http_presence url t = record t { has_http = starts_with url http || t.has_http }

-- One url: a tracker of the same host takes it too, otherwise a new one is made.
unfoldable pub add_url : Text → Text → List (Text × Tracker) → List (Text × Tracker)
unfolding equal starts_with tracker
add_url key url [] = (key, tag_http_presence url (tracker url)) ∷ []
add_url key url ((k, t) ∷ ts) =
    if equal k key
    then (k, tag_http_presence url (record t { announce_urls = t.announce_urls ++ (url ∷ []) }))
      ∷ ts
    else (k, t) ∷ add_url key url ts

-- initiatlize_trackers
unfoldable pub initiatlize_trackers :
    List Text → List (Text × Tracker) → Option (List (Text × Tracker))
unfolding add_url get_hostname
initiatlize_trackers [] ts = some ts
initiatlize_trackers (url ∷ urls) ts = do
  key ← get_hostname url
  initiatlize_trackers urls (add_url key url ts)

-- `announce_urls[i]`; `none` is a read past the end.
unfoldable pub url_at : List Text → ℕ → Option Text
url_at [] i = none
url_at (u ∷ us) zero = some u
url_at (u ∷ us) (suc i) = url_at us i

abbrev pub get_url : Tracker → Option Text
get_url t = url_at t.announce_urls t.current_announce_url_index

-- The index behind the current one, the first behind the last.
unfoldable pub next_url_index : Tracker → ℕ
next_url_index t =
    let index = add_size t.current_announce_url_index 1 in
    if leb (length t.announce_urls) index then 0 else index

unfoldable pub seek_to_next_url : Tracker → Option Tracker
unfolding next_url_index url_at starts_with
seek_to_next_url t = do
  u ← url_at t.announce_urls (next_url_index t)
  some (record t { current_announce_url_index = next_url_index t; http_mode = starts_with u http })

-- `while (http_mode == false) seek_to_next_url();` with fuel; `none` is the end of the fuel too.
unfoldable pub seek_http : ℕ → Tracker → Option Tracker
unfolding seek_to_next_url
seek_http zero t = none
seek_http (suc f) t = elim t.http_mode [
  | true ↦ some t
  | false ↦ seek_to_next_url t >>= seek_http f
]
