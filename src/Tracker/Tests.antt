-- ===== src/Tracker/Tests.antt =====
-- Tests of the trackers, and the theorems at concrete inputs.
use mathlib.Core.Option
use bittorrent_application_l.Base.{
  ◌*◌, ◌≡◌, refl, true, Option, none, some, List, [], ◌∷◌, ◌++◌, arith, pos, ◌==◌, if◌then◌else◌,
}
use bittorrent_application_l.Bencode.{
  Text, Bendata, bendata, num, dic, end, field, get_encode, assign,
}
use bittorrent_application_l.Bencode.Decimal.{to_string, noexcept_stoi}
use bittorrent_application_l.Bencode.Stream.{peek_skipws, read_delimeter, read_until, read_chars}
use bittorrent_application_l.Bencode.Encode.{encode_int, encode, encode_to_dict}
use bittorrent_application_l.Bencode.Decode.{
  get_bendata_from_stream, bendecode_from_file, bendecode_string, bendecode_integer,
}
use bittorrent_application_l.Tracker.{
  Tracker, TrackerManager, Environment, tracker, normal_state, inactive_state,
}
use bittorrent_application_l.Tracker.Url.{get_hostname, initiatlize_trackers, seek_http}
use bittorrent_application_l.Bencode.Find.{equal}
use bittorrent_application_l.Tracker.Space.{
  tracker_of, put_tracker, populate_manager_space, send_to_protocol_space,
}
use bittorrent_application_l.Tracker.Response.{read_response}
use bittorrent_application_l.Tracker.Announce.{codes}
use bittorrent_application_l.Tracker.States.{
  run_reannounce_state, run_start_state, enter, main_timer,
}
use bittorrent_application_l.Tracker.Events.{
  Event, round, timeout, received, finished, call_start, call_reannounce, run,
}
use bittorrent_application_l.Tracker.Quiet.{AreSingle}
use bittorrent_application_l.Tracker.Reannounce.{run-reannounce}
use bittorrent_application_l.Tracker.Failures.{fails, HasFailed, fails_lem}
use bittorrent_application_l.Tracker.Stale.{holding, read_response-stale}
use bittorrent_application_l.Tracker.Dangling.{Dangles, run_start_state-dangling}

abbrev doubling : Environment
doubling = record {
  curl_escape = λ s. s;
  client_id = codes "id";
  grow = λ c. if c == 0 then 1 else 2 * c;
}

host_of_path : get_hostname (codes "http://a.b/ann") ≡ some (codes "a.b")
unfolding get_hostname
host_of_path = refl

host_of_port : get_hostname (codes "udp://a.b:80/ann") ≡ some (codes "a.b")
unfolding get_hostname
host_of_port = refl

-- The end of the host is the last slash.
host_of_long_path : get_hostname (codes "http://a/b/c") ≡ some (codes "a/b")
unfolding get_hostname
host_of_long_path = refl

abbrev manager_of : List (Text × Tracker) → TrackerManager
manager_of ts = record {
  tracker_connections = ts;
  manager_space = [];
  capacity = 0;
  allocation = 0;
  trkrs_in_trkrspace = pos 2;
  current_state = inactive_state;
  uploaded = 0;
  downloaded = 0;
  left = 9;
  info_hash_byte = codes "hash";
  listening_port = 80;
  requests = [];
}

abbrev one_url : List Text
one_url = codes "http://a/x" ∷ []

abbrev two_hosts : List Text
two_hosts = codes "http://a/x" ∷ (codes "udp://a:1/y" ∷ (codes "http://b/x" ∷ []))

abbrev answered : List Event
answered =
    call_start
    ∷ (round
        ∷ (timeout main_timer 0
            ∷ (received 0 (codes "d8:intervali9ee" ++ (0 ∷ []))
                ∷ (finished 0 true 200 ∷ (call_reannounce ∷ [])))))

abbrev at_a : Tracker
at_a = record (tracker (codes "http://a/x")) { has_http = true }

abbrev at_a_too : Tracker
at_a_too = record (tracker (codes "http://a/x")) {
  has_http = true;
  announce_urls = codes "http://a/x" ∷ (codes "udp://a:1/y" ∷ []);
}

abbrev at_b : Tracker
at_b = record (tracker (codes "http://b/x")) { has_http = true }

abbrev single : TrackerManager
single = manager_of ((codes "a", at_a) ∷ [])

abbrev double : TrackerManager
double = manager_of ((codes "a", at_a_too) ∷ ((codes "b", at_b) ∷ []))

made_one : initiatlize_trackers one_url [] ≡ some single.tracker_connections
unfolding initiatlize_trackers tracker
made_one = refl

got : Option TrackerManager → TrackerManager
got none = single
got (some m) = m

after_answer : TrackerManager
unfolding run got
after_answer = got (run doubling answered single)

ran : run doubling answered single ≡ some after_answer
unfolding run after_answer tracker tracker_of put_tracker bendecode_from_file
    get_bendata_from_stream bendecode_string bendecode_integer peek_skipws read_delimeter read_until
    read_chars noexcept_stoi to_string assign seek_http populate_manager_space equal
ran = refl

-- The request that was made, and the interval that the answer set.
asked :
    Option.map (λ m. m.requests) (run doubling answered single)
    ≡ some (
        (
          0,
          codes
              "http://a/x?info_hash=hash&peer_id=id&port=80&uploaded=0&downloaded=0&left=9&compact=1&event=started",
        )
        ∷ [])
unfolding run tracker tracker_of put_tracker bendecode_from_file get_bendata_from_stream
    bendecode_string bendecode_integer peek_skipws read_delimeter read_until read_chars
    noexcept_stoi to_string assign seek_http populate_manager_space equal
asked = refl

run-reannounce_example :
    AreSingle after_answer.tracker_connections
    × (run_reannounce_state doubling after_answer ≡ some (enter normal_state after_answer))
run-reannounce_example =
    run-reannounce doubling one_url answered single after_answer made_one refl ran

abbrev fresh : Tracker
fresh = record (tracker (codes "http://a/x")) { http_mode = true }

fails_lem_example :
    ((u : Tracker) × (fails 3 fresh ≡ some u) × HasFailed fresh 3 u) × (fails 6 fresh ≡ none)
unfolding tracker
fails_lem_example = fails_lem fresh 3 6 refl refl refl (omega arith) (omega arith)

abbrev answer : Bendata
answer =
    bendata (dic (field (codes "interval") (bendata (num (pos 9)) (codes "i9e") b'i') end))
      (codes "d8:intervali9ee") b'd'

read_response-stale_example :
    read_response (holding fresh (get_encode answer ++ codes "d8:intervali5ee"))
    ≡ Option.map
        (λ u. holding u (get_encode answer ++ codes "d8:intervali5ee"))
        (read_response (holding fresh (get_encode answer)))
unfolding encode_int encode encode_to_dict to_string
read_response-stale_example =
    read_response-stale fresh answer (codes "d8:intervali5ee")
      ((omega arith, (omega arith, refl, refl), tt), tt, refl, refl)

begun : TrackerManager
unfolding run_start_state got
begun = got (run_start_state doubling double)

begun_lem : run_start_state doubling double ≡ some begun
unfolding begun tracker tracker_of put_tracker seek_http populate_manager_space
begun_lem = refl

begun_cells : begun.manager_space ≡ some 0 ∷ (some 1 ∷ [])
unfolding begun tracker tracker_of put_tracker seek_http populate_manager_space
begun_cells = refl

-- The second tracker's pointer is good, and it can be sent and returned.
second_is_sent :
    Option.map (λ m. m.manager_space) (send_to_protocol_space 1 begun) ≡ some (some 0 ∷ (none ∷ []))
unfolding begun tracker tracker_of put_tracker seek_http populate_manager_space
    send_to_protocol_space
second_is_sent = refl

-- The counter's reference of the first is set, so its pointer is why it cannot.
first_is_counted :
    Option.map (λ t. t.trkrs_in_trkrspace_ref) (tracker_of begun.tracker_connections 0) ≡ some true
unfolding begun tracker tracker_of put_tracker seek_http populate_manager_space
first_is_counted = refl

run_start_state-dangling_example : (t : Tracker) × Dangles 0 begun t
run_start_state-dangling_example =
    run_start_state-dangling doubling double begun 0 (some 1) [] refl refl refl begun_lem
      begun_cells
