-- ===== src/Tracker/Announce.antt =====
-- src/Client/TrackerManager.cpp: the url of a request, and the request itself.
use Prim.Native.String.{String}
use Prim.Native.Char.{code}
use bittorrent_application_l.Base.{
  ℕ, ◌-◌, ◌^◌, Option, some, List, [], ◌∷◌, ◌++◌, ℤ, pos, negsuc, ltb, if◌then◌else◌, ◌>>=◌,
  add_size, sub_size,
}
use bittorrent_application_l.Bencode.{Text}
use bittorrent_application_l.Bencode.Decimal.{to_string}
use bittorrent_application_l.Tracker.{
  TrackerManager, Environment, TrackerEvent, started, stopped, completed, update,
}
use bittorrent_application_l.Tracker.Url.{get_url}
use bittorrent_application_l.Tracker.Space.{get, put, send_to_protocol_space}

-- The bytes of a text in ASCII.
abbrev pub codes : String → Text
codes String.[] = []
codes (String.◌∷◌ c s) = code c ∷ codes s

-- event_strings
abbrev pub event_string : TrackerEvent → Text
event_string started = codes "&event=started"
event_string stopped = codes "&event=stopped"
event_string completed = codes "&event=completed"
event_string update = []

-- An int64_t of its 64 bits.
abbrev signed64 : ℕ → ℤ
signed64 w = if ltb w (2 ^ 63) then pos w else negsuc (2 ^ 64 - w - 1)

unfoldable pub make_param : Text → Text → Text
make_param key value = key ++ (b'=' ∷ value)

-- `param + ampersand` for each but the last.
unfoldable pub accumulate : List Text → Text
accumulate [] = []
accumulate (p ∷ []) = p
accumulate (p ∷ (q ∷ ps)) = p ++ (b'&' ∷ accumulate (q ∷ ps))

unfoldable pub pop_back : Text → Text
pop_back [] = []
pop_back (c ∷ []) = []
pop_back (c ∷ (d ∷ s)) = c ∷ pop_back (d ∷ s)

-- The array has room for eight parameters, and the eighth is empty.
unfoldable pub get_request_params : Environment → TrackerManager → Text
unfolding make_param accumulate pop_back to_string
get_request_params e m = pop_back (
    accumulate (
      make_param (codes "info_hash") (e.curl_escape m.info_hash_byte)
      ∷ (make_param (codes "peer_id") e.client_id
          ∷ (make_param (codes "port") (to_string (pos m.listening_port))
              ∷ (make_param (codes "uploaded") (to_string (signed64 m.uploaded))
                  ∷ (make_param (codes "downloaded") (to_string (signed64 m.downloaded))
                      ∷ (make_param (codes "left") (to_string (signed64 m.left))
                          ∷ (make_param (codes "compact") (to_string (pos 1)) ∷ ([] ∷ [])))))))))

unfoldable pub tracker_id_param : Text → Text
tracker_id_param [] = []
tracker_id_param (c ∷ id) = codes "&trackerid=" ++ (c ∷ id)

unfoldable pub set_announce_url_for_tracker :
    Environment → TrackerEvent → ℕ → TrackerManager → Option TrackerManager
unfolding get_request_params tracker_id_param
set_announce_url_for_tracker e ev i m = do
  t ← get i m
  u ← get_url t
  some (
      put i
        (record t {
          url =
              u
              ++ (b'?'
                  ∷ (get_request_params e m ++ (tracker_id_param t.tracker_id ++ event_string ev)));
        })
        m)

-- protocol_handle_t::add_request: nothing is done for a url of another protocol.
unfoldable pub add_request : ℕ → TrackerManager → Option TrackerManager
add_request i m = do
  t ← get i m
  some (if t.http_mode then record m { requests = (i, t.url) ∷ m.requests } else m)

-- A url is set, the tracker leaves the manager's space, and the request is made.
unfoldable pub announce : Environment → TrackerEvent → ℕ → TrackerManager → Option TrackerManager
unfolding set_announce_url_for_tracker add_request send_to_protocol_space
announce e ev i m = do
  named ← set_announce_url_for_tracker e ev i m
  sent ← send_to_protocol_space i named
  add_request i sent

-- update_context, on an int64_t's bits.
unfoldable pub update_context : ℕ → ℕ → TrackerManager → TrackerManager
update_context dwn upd m = record m {
  downloaded = add_size m.downloaded dwn;
  uploaded = add_size m.uploaded upd;
  left = sub_size m.left dwn;
}
