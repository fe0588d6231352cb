-- ===== src/Tracker/SingleTimer.antt =====
-- Answers and failures leave each tracker with one timer.
use mathlib.Core.Option
use bittorrent_application_l.Base.{
  ℕ, suc, zero, refl, inl, inr, true, Option, none, some, [], ◌∷◌, arith, ℤ, pos, negsuc, length,
  ◌>>=◌, ◌==◌, Bool-cases,
}
use bittorrent_application_l.Bencode.{Text, Fields}
use bittorrent_application_l.Bencode.Decode.{bendecode_from_file}
use bittorrent_application_l.Tracker.{Tracker, TrackerManager, to_size}
use bittorrent_application_l.Tracker.Url.{seek_to_next_url, seek_http, url_at, next_url_index}
use bittorrent_application_l.Tracker.Space.{put}
use bittorrent_application_l.Tracker.Response.{
  read_fields, parsed_dict, read_response, rearm, requeue, do_on_success, first_failed,
  count_failure, fail, do_on_failure, get_retry_seconds, failing, interval_key, min_interval_key,
  tracker_id_key, number_or, text_or,
}
use bittorrent_application_l.Bencode.Find.{find_field}
use bittorrent_application_l.Tracker.Quiet.{
  IsSingle, IsQuiet, Stays, put-IsQuiet, Stays-get, return_to_manager_space-Stays,
}

-- So if a tracker's step has a result.
abbrev pub GivesSingle : Option Tracker → Type 0
GivesSingle none = Unit {0}
GivesSingle (some t) = IsSingle t

GivesSingle-any :
    {A : Type 0} (o : Option A) (f : A → Option Tracker)
    → ((a : A) → GivesSingle (f a))
    → GivesSingle (o >>= f)
GivesSingle-any none f k = tt
GivesSingle-any (some a) f k = k a

GivesSingle-bind :
    (o : Option Tracker) (f : Tracker → Option Tracker)
    → GivesSingle o
    → ((t : Tracker) → IsSingle t → GivesSingle (f t))
    → GivesSingle (o >>= f)
GivesSingle-bind none f h k = tt
GivesSingle-bind (some t) f h k = k t h

-- A step of a tracker whose result is put back.
pub Stays-tracker :
    (o : Option Tracker) (f : Tracker → Option TrackerManager)
    → GivesSingle o
    → ((t : Tracker) → IsSingle t → Stays (f t))
    → Stays (o >>= f)
Stays-tracker none f h k = tt
Stays-tracker (some t) f h k = k t h

seek_to_next_url-GivesSingle : (t : Tracker) → IsSingle t → GivesSingle (seek_to_next_url t)
unfolding seek_to_next_url
seek_to_next_url-GivesSingle t s =
    GivesSingle-any (url_at t.announce_urls (next_url_index t)) _ (λ u. s)

pub seek_http-GivesSingle : (f : ℕ) (t : Tracker) → IsSingle t → GivesSingle (seek_http f t)
unfolding seek_http
seek_http-GivesSingle zero t s = tt
seek_http-GivesSingle (suc f) t s = elim (Bool-cases t.http_mode) [
  | inl e ↦ rw e s
  | inr e ↦ rw e (
      GivesSingle-bind (seek_to_next_url t) (seek_http f) (seek_to_next_url-GivesSingle t s)
        (λ u k. seek_http-GivesSingle f u k))
]

read_fields-GivesSingle : (fs : Fields) (t : Tracker) → IsSingle t → GivesSingle (read_fields fs t)
unfolding read_fields
read_fields-GivesSingle fs t s =
    GivesSingle-any (number_or t.interval (find_field interval_key fs)) _ λ n.
      GivesSingle-any (number_or (pos 0) (find_field min_interval_key fs)) _
        λ least. GivesSingle-any (text_or t.tracker_id (find_field tracker_id_key fs)) _ λ id. s

read_response-GivesSingle : (t : Tracker) → IsSingle t → GivesSingle (read_response t)
unfolding read_response
read_response-GivesSingle t s = read t.response
  where
    read :
        (text : Text)
        → GivesSingle (elim text [
          | [] ↦ some t
          | c ∷ r ↦ parsed_dict (bendecode_from_file (c ∷ r)) >>= λ fs. read_fields fs t
        ])
    read [] = s
    read (c ∷ r) =
        GivesSingle-any (parsed_dict (bendecode_from_file (c ∷ r))) (λ fs. read_fields fs t)
          (λ fs. read_fields-GivesSingle fs t s)

rearm-IsSingle : (t : Tracker) → IsSingle t → IsSingle (rearm t)
unfolding rearm
rearm-IsSingle t s = ground arith

requeue-Stays : (i : ℕ) (t : Tracker) (m : TrackerManager) → IsQuiet m → Stays (requeue i t m)
unfolding requeue
requeue-Stays i t m h = elim (Bool-cases t.requeueable) [
  | inl e ↦ rw e (return_to_manager_space-Stays i m h)
  | inr e ↦ rw e h
]

pub do_on_success-Stays : (i : ℕ) (m : TrackerManager) → IsQuiet m → Stays (do_on_success i m)
unfolding do_on_success
do_on_success-Stays i m h = Stays-get i m _ h λ t s l.
    Stays-tracker
      (read_response
        (record t { failure_count = 0; failed_url_index = negsuc 0; active_flag = true }))
      _ (read_response-GivesSingle _ s)
      (λ u k.
        requeue-Stays i (rearm u) (put i (rearm u) m)
          (put-IsQuiet i (rearm u) m h (rearm-IsSingle u k)))

first_failed-IsSingle : (t : Tracker) → IsSingle t → IsSingle (first_failed t)
unfolding first_failed
first_failed-IsSingle t s = ground arith

GivesSingle-map :
    (o : Option ℤ) (f : ℤ → Tracker) → ((z : ℤ) → IsSingle (f z)) → GivesSingle (Option.map f o)
GivesSingle-map none f k = tt
GivesSingle-map (some z) f k = k z

count_failure-GivesSingle : (t : Tracker) → IsSingle t → GivesSingle (count_failure t)
unfolding count_failure
count_failure-GivesSingle t s =
    elim (Bool-cases (t.current_announce_url_index == to_size t.failed_url_index)) [
      | inl e ↦ rw e (GivesSingle-map (get_retry_seconds (failing t)) _ (λ z. s))
      | inr e ↦ rw e s
    ]

fail-GivesSingle : (t : Tracker) → IsSingle t → GivesSingle (fail t)
unfolding fail
fail-GivesSingle t s =
    let begun = first_failed (record t { only_one_timer = true }) in
    GivesSingle-bind (seek_http (suc (length t.announce_urls)) begun)
      (λ sought. count_failure sought >>= λ counted.
        some (record counted { interval = pos 5; timer_w = some (pos 5) }))
      (seek_http-GivesSingle (suc (length t.announce_urls)) begun
        (first_failed-IsSingle (record t { only_one_timer = true }) (refl, s.1)))
      (λ u k.
        GivesSingle-bind (count_failure u)
          (λ counted. some (record counted { interval = pos 5; timer_w = some (pos 5) }))
          (count_failure-GivesSingle u k) (λ v q. q))

pub do_on_failure-Stays : (i : ℕ) (m : TrackerManager) → IsQuiet m → Stays (do_on_failure i m)
unfolding do_on_failure
do_on_failure-Stays i m h = Stays-get i m _ h λ t s l.
    Stays-tracker (fail t) _ (fail-GivesSingle t s)
      (λ u k. requeue-Stays i u (put i u m) (put-IsQuiet i u m h k))
