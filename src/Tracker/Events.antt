-- ===== src/Tracker/Events.antt =====
-- What happens to the tracker service, one event at a time: src/Client/TrackerManager.cpp, with
-- easy_callback and chk_finished of src/Client/HTTPHandler.cpp.
use bittorrent_application_l.Base.{
  ℕ, Bool, true, false, ◌&&◌, Option, none, some, List, [], ◌∷◌, ◌++◌, ◌==◌, if◌then◌else◌, ◌>>=◌,
  ℤ,
}
use bittorrent_application_l.Bencode.{Text}
use bittorrent_application_l.Tracker.{Tracker, Environment}
use bittorrent_application_l.Tracker.Space.{get, put}
use bittorrent_application_l.Tracker.Response.{do_on_success, do_on_failure}
use bittorrent_application_l.Tracker.Announce.{update_context}
use bittorrent_application_l.Tracker.States.{
  Action, TimerName, main_timer, least_timer, tracker_timeout_handler, start, reannounce,
  force_reannounce, shutdown, run_state,
}

abbrev before_nul : Text → Option Text → Option Text
before_nul text none = none
before_nul text (some s) = some (text ++ s)

-- The text of a `const char*`, given the memory from there on: up to the first NUL.
unfoldable pub c_string : Text → Option Text
c_string [] = none
c_string (c ∷ s) = let rest = c_string s in if c == 0 then some [] else before_nul (c ∷ []) rest

-- easy_callback: `mem->data += data` takes no note of how many bytes came.
unfoldable pub easy_callback : ℕ → Text → Action
unfolding c_string
easy_callback i memory m = do
  t ← get i m
  text ← c_string memory
  some (put i (record t { response = t.response ++ text }) m)

-- chk_finished, for one finished request.
unfoldable pub chk_finished : ℕ → Bool → ℕ → Action
unfolding do_on_success do_on_failure
chk_finished i result_ok http_res_code m =
    if result_ok && http_res_code == 200 then do_on_success i m else do_on_failure i m

-- A round of the service's loop, a timer's end, bytes of an answer, the end of a request, and the
-- calls from outside.
pub data Event : Type 0 where
  round : Event
  timeout : TimerName → ℕ → Event
  received : ℕ → Text → Event
  finished : ℕ → Bool → ℕ → Event
  call_start call_reannounce call_force_reannounce call_shutdown : Event
  call_update_context : ℕ → ℕ → Event

abbrev is_armed : Option ℤ → Bool
is_armed none = false
is_armed (some z) = true

abbrev pub armed : TimerName → Tracker → Bool
armed main_timer t = is_armed t.timer_w
armed least_timer t = is_armed t.min_timer_w

-- A timer that does not run has no end.
unfoldable pub fire : Environment → TimerName → ℕ → Action
unfolding tracker_timeout_handler
fire e timer i m = do
  t ← get i m
  if armed timer t then tracker_timeout_handler e timer i m else (some m)

unfoldable pub step : Environment → Event → Action
unfolding run_state fire easy_callback chk_finished start reannounce force_reannounce shutdown
    update_context
step e round m = run_state e m.current_state m
step e (timeout timer i) m = fire e timer i m
step e (received i memory) m = easy_callback i memory m
step e (finished i ok code) m = chk_finished i ok code m
step e call_start m = some (start m)
step e call_reannounce m = some (reannounce m)
step e call_force_reannounce m = some (force_reannounce m)
step e call_shutdown m = some (shutdown m)
step e (call_update_context dwn upd) m = some (update_context dwn upd m)

-- Events one after another.
unfoldable pub run : Environment → List Event → Action
unfolding step
run e [] m = some m
run e (v ∷ vs) m = step e v m >>= run e vs
