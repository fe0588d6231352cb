-- ===== src/Tracker/Response.antt =====
-- src/Client/Tracker.cpp: what a tracker does on an answer and on a failure.
use bittorrent_application_l.Base.{
  ℕ, suc, zero, ◌+◌, ◌*◌, ◌-◌, ◌^◌, ◌%◌, Bool, true, false, ◌||◌, not, Option, none, some, [], ◌∷◌,
  ℤ, pos, negsuc, length, ◌==◌, if◌then◌else◌, ◌>>=◌,
}
use mathlib.Core.Option
use bittorrent_application_l.Bencode.{Text, Bendata, Fields, actual_value, num_of, str_of, dic_of}
use bittorrent_application_l.Bencode.Decode.{
  Decoded, done, failed, out_of_fuel, bendecode_from_file,
}
use bittorrent_application_l.Bencode.Find.{find_field}
use bittorrent_application_l.Tracker.{Tracker, TrackerManager, to_size}
use bittorrent_application_l.Tracker.Url.{seek_http}
use bittorrent_application_l.Tracker.Space.{get, put, return_to_manager_space}

-- parsed_dict.contains(key), of what was found.
abbrev pub contains : Option Bendata → Bool
contains none = false
contains (some v) = true

-- `if (parsed_dict.contains(…)) variable = parsed_dict[…].get_data<…>();`, else another value. The
-- missing result is bad_variant_access.
unfoldable pub number_or : ℤ → Option Bendata → Option ℤ
number_or z none = some z
number_or z (some v) = num_of (actual_value v)

unfoldable pub text_or : Text → Option Bendata → Option Text
text_or s none = some s
text_or s (some v) = str_of (actual_value v)

abbrev pub failure_reason : Text
failure_reason =
    b'f' ∷ b'a' ∷ b'i' ∷ b'l' ∷ b'u' ∷ b'r' ∷ b'e' ∷ 32 ∷ b'r' ∷ b'e' ∷ b'a' ∷ b's' ∷ b'o' ∷ b'n'
    ∷ []

abbrev pub interval_key : Text
interval_key = b'i' ∷ b'n' ∷ b't' ∷ b'e' ∷ b'r' ∷ b'v' ∷ b'a' ∷ b'l' ∷ []

abbrev pub min_interval_key : Text
min_interval_key = b'm' ∷ b'i' ∷ b'n' ∷ 32 ∷ interval_key

abbrev pub tracker_id_key : Text
tracker_id_key = b't' ∷ b'r' ∷ b'a' ∷ b'c' ∷ b'k' ∷ b'e' ∷ b'r' ∷ 32 ∷ b'i' ∷ b'd' ∷ []

-- What the parsed dictionary changes.
unfoldable pub read_fields : Fields → Tracker → Option Tracker
unfolding find_field number_or text_or
read_fields fs t = do
  n ← number_or t.interval (find_field interval_key fs)
  least ← number_or (pos 0) (find_field min_interval_key fs)
  id ← text_or t.tracker_id (find_field tracker_id_key fs)
  some (record t {
    update_state = not (contains (find_field failure_reason fs)) || t.update_state;
    interval = n;
    min_interval = least;
    tracker_id = id;
  })

-- bendecode_from_file and get_data<ben::dic>; the missing result is their exception.
unfoldable pub parsed_dict : Decoded → Option Fields
parsed_dict (done (v, rest)) = dic_of (actual_value v)
parsed_dict failed = none
parsed_dict out_of_fuel = none

-- `if (!user_space.data.empty()) { … }`
unfoldable pub read_response : Tracker → Option Tracker
unfolding parsed_dict read_fields
read_response t = elim t.response [
  | [] ↦ some t
  | c ∷ s ↦ parsed_dict (bendecode_from_file (c ∷ s)) >>= λ fs. read_fields fs t
]

abbrev is_unset : ℤ → Bool
is_unset (pos n) = n == 0
is_unset (negsuc n) = n == 0

-- The timers at the end of do_on_success.
unfoldable pub rearm : Tracker → Tracker
rearm t =
    let one = is_unset t.min_interval || t.only_one_timer in
    if one then record t { only_one_timer = true; timer_w = some t.interval } else record t {
      only_one_timer = false;
      interruptible = false;
      min_timer_w = some t.min_interval;
      timer_w = some t.interval;
    }

-- `if (requeueable) return_to_manager_space();`
unfoldable pub requeue : ℕ → Tracker → TrackerManager → Option TrackerManager
unfolding return_to_manager_space
requeue i t m = if t.requeueable then return_to_manager_space i m else some m

unfoldable pub do_on_success : ℕ → TrackerManager → Option TrackerManager
unfolding read_response rearm requeue
do_on_success i m = do
  t ← get i m
  read ←
      read_response
        (record t { failure_count = 0; failed_url_index = negsuc 0; active_flag = true })
  requeue i (rearm read) (put i (rearm read) m)

-- get_retry_seconds: `retry_intervals[failure_count-1 %5]` reads at failure_count - (1 % 5), an
-- unsigned int; past the array of five there is no result.
unfoldable pub retry_interval : ℕ → Option ℤ
retry_interval zero = some (pos 10)
retry_interval (suc zero) = some (pos 30)
retry_interval (suc (suc zero)) = some (pos (5 * 60))
retry_interval (suc (suc (suc zero))) = some (pos (15 * 60))
retry_interval (suc (suc (suc (suc zero)))) = some (pos (45 * 60))
retry_interval (suc (suc (suc (suc (suc n))))) = none

unfoldable pub get_retry_seconds : Tracker → Option ℤ
unfolding retry_interval
get_retry_seconds t =
    if t.failure_count == 0
    then some (pos 0)
    else retry_interval ((t.failure_count + 2 ^ 32 - 1 % 5) % 2 ^ 32)

-- `if (failed_url_index == -1) failed_url_index = current_announce_url_index;`
unfoldable pub first_failed : Tracker → Tracker
first_failed t = elim t.failed_url_index [
  | pos n ↦ t
  | negsuc n ↦
      if n == 0 then record t { failed_url_index = pos t.current_announce_url_index } else t
]

-- A tracker that failed once more.
abbrev pub failing : Tracker → Tracker
failing t = record t { failure_count = (t.failure_count + 1) % 2 ^ 32; active_flag = false }

abbrev with_interval : Tracker → ℤ → Tracker
with_interval t seconds = record t { interval = seconds }

-- A whole round of the urls has failed.
unfoldable pub count_failure : Tracker → Option Tracker
unfolding get_retry_seconds
count_failure t =
    if t.current_announce_url_index == to_size t.failed_url_index
    then Option.map (with_interval (failing t)) (get_retry_seconds (failing t))
    else (some t)

-- The tracker's part of do_on_failure.
unfoldable pub fail : Tracker → Option Tracker
unfolding first_failed seek_http count_failure
fail t = do
  sought ←
      seek_http (suc (length t.announce_urls)) (first_failed (record t { only_one_timer = true }))
  counted ← count_failure sought
  some (record counted { interval = pos 5; timer_w = some (pos 5) })

unfoldable pub do_on_failure : ℕ → TrackerManager → Option TrackerManager
unfolding fail requeue
do_on_failure i m = do t ← get i m; t' ← fail t; requeue i t' (put i t' m)
