-- ===== src/Tracker/Rounds.antt =====
-- The rounds of the service and every event leave each tracker with one timer.
use bittorrent_application_l.Base.{
  ℕ, refl, inl, inr, false, not, ◌&&◌, Option, none, some, List, [], ◌∷◌, ◌++◌, arith, length, ◌==◌,
  if◌then◌else◌, Bool-cases,
}
use bittorrent_application_l.Bencode.{Text}
use bittorrent_application_l.Tracker.{
  Tracker, TrackerManager, Environment, update, stopped, completed, StateFunction, start_state,
  normal_state, reannounce_state, force_reannounce_state, shutdown_state, inactive_state,
}
use bittorrent_application_l.Tracker.Space.{put, send_to_protocol_space}
use bittorrent_application_l.Tracker.Announce.{
  set_announce_url_for_tracker, add_request, update_context,
}
use bittorrent_application_l.Tracker.States.{
  main_timer, least_timer, disarm, for_cells, enter, reannounce_cell, run_reannounce_state,
  force_cell, run_force_reannounce_state, last_request, shutdown_cell, run_shutdown_state, is_state,
  leave, start, reannounce, force_reannounce, shutdown, run_state, is_zero,
}
use bittorrent_application_l.Tracker.Events.{
  easy_callback, c_string, chk_finished, Event, round, timeout, received, finished, call_start,
  call_reannounce, call_force_reannounce, call_shutdown, call_update_context, fire, step, run,
  armed,
}
use bittorrent_application_l.Tracker.Quiet.{
  IsSingle, IsQuiet, Stays, Stays-bind, Stays-any, put-IsQuiet, Stays-get,
  send_to_protocol_space-Stays,
}
use bittorrent_application_l.Tracker.SingleTimer.{do_on_success-Stays, do_on_failure-Stays}
use bittorrent_application_l.Tracker.Starting.{
  set_announce_url-Stays, add_request-Stays, announce-Stays, Stays-if, timeout-Stays,
  for_cells-Stays, run_start_state-Stays,
}

reannounce_cell-Stays :
    (e : Environment) (p : Option ℕ) (m : TrackerManager)
    → IsQuiet m
    → Stays (reannounce_cell e p m)
unfolding reannounce_cell
reannounce_cell-Stays e none m h = h
reannounce_cell-Stays e (some i) m h = Stays-get i m _ h λ t s l.
    Stays-if (not t.only_one_timer && t.interruptible && t.update_state) _ _
      (announce-Stays e update i (put i (disarm main_timer t) m)
        (put-IsQuiet i (disarm main_timer t) m h s))
      h

force_cell-Stays :
    (e : Environment) (p : Option ℕ) (m : TrackerManager) → IsQuiet m → Stays (force_cell e p m)
unfolding force_cell
force_cell-Stays e none m h = h
force_cell-Stays e (some i) m h = Stays-get i m _ h λ t s l.
    let u = disarm least_timer (disarm main_timer t) in
    Stays-if t.update_state _ _
      (announce-Stays e update i (put i u m) (put-IsQuiet i u m h (s.0, refl))) h

quiet-IsSingle :
    (t : Tracker) → IsSingle t → IsSingle (if t.only_one_timer then t else disarm least_timer t)
quiet-IsSingle t s = ground arith

last_request-Stays :
    (e : Environment) (i : ℕ) (t : Tracker) (m : TrackerManager)
    → IsQuiet m
    → IsSingle t
    → Stays (last_request e i t m)
unfolding last_request
last_request-Stays e i t m h s =
    let quiet = if t.only_one_timer then t else disarm least_timer t in
    let q : IsSingle quiet = quiet-IsSingle t s in
    let ev = if m.left == 0 then completed else stopped in
    Stays-if t.update_state _ _
      (Stays-bind (set_announce_url_for_tracker e ev i (put i quiet m)) (add_request i)
        (set_announce_url-Stays e ev i (put i quiet m) (put-IsQuiet i quiet m h q))
        (λ n k. add_request-Stays i n k))
      h

shutdown_cell-Stays :
    (e : Environment) (p : Option ℕ) (m : TrackerManager) → IsQuiet m → Stays (shutdown_cell e p m)
unfolding shutdown_cell
shutdown_cell-Stays e none m h = h
shutdown_cell-Stays e (some i) m h = Stays-get i m _ h λ t s l.
    let quiet = record (disarm main_timer t) { requeueable = false } in
    Stays-bind (send_to_protocol_space i (put i quiet m)) (last_request e i quiet)
      (send_to_protocol_space-Stays i (put i quiet m) (put-IsQuiet i quiet m h s))
      (λ n k. last_request-Stays e i quiet n k s)

ended-IsQuiet :
    (m : TrackerManager)
    → IsQuiet m
    → IsQuiet (if is_zero m.trkrs_in_trkrspace then enter inactive_state m else m)
ended-IsQuiet m h = elim (Bool-cases (is_zero m.trkrs_in_trkrspace)) [
  | inl e ↦ rw e h
  | inr e ↦ rw e h
]

run_state-Stays :
    (e : Environment) (f : StateFunction) (m : TrackerManager) → IsQuiet m → Stays (run_state e f m)
unfolding run_state run_reannounce_state run_force_reannounce_state run_shutdown_state
run_state-Stays e start_state m h = run_start_state-Stays e m h
run_state-Stays e normal_state m h = h
run_state-Stays e reannounce_state m h =
    Stays-bind (for_cells (reannounce_cell e) (length m.manager_space) 0 m) _
      (for_cells-Stays (reannounce_cell e) (reannounce_cell-Stays e) (length m.manager_space) 0 m h)
      (λ p q. q)
run_state-Stays e force_reannounce_state m h =
    Stays-bind (for_cells (force_cell e) (length m.manager_space) 0 m) _
      (for_cells-Stays (force_cell e) (force_cell-Stays e) (length m.manager_space) 0 m h)
      (λ p q. q)
run_state-Stays e shutdown_state m h =
    Stays-bind (for_cells (shutdown_cell e) (length m.manager_space) 0 m) _
      (for_cells-Stays (shutdown_cell e) (shutdown_cell-Stays e) (length m.manager_space) 0 m h)
      (λ p q. ended-IsQuiet p q)
run_state-Stays e inactive_state m h = h

leave-IsQuiet :
    (from to : StateFunction) (m : TrackerManager) → IsQuiet m → IsQuiet (leave from to m)
unfolding leave
leave-IsQuiet from to m h = elim (Bool-cases (is_state m.current_state from)) [
  | inl e ↦ rw e h
  | inr e ↦ rw e h
]

easy_callback-Stays :
    (i : ℕ) (memory : Text) (m : TrackerManager) → IsQuiet m → Stays (easy_callback i memory m)
unfolding easy_callback
easy_callback-Stays i memory m h = Stays-get i m _ h λ t s l.
    Stays-any (c_string memory) _
      (λ text. put-IsQuiet i (record t { response = t.response ++ text }) m h s)

step-Stays : (e : Environment) (v : Event) (m : TrackerManager) → IsQuiet m → Stays (step e v m)
unfolding step fire chk_finished start reannounce force_reannounce shutdown update_context
step-Stays e round m h = run_state-Stays e m.current_state m h
step-Stays e (timeout timer i) m h =
    Stays-get i m _ h λ t s l. Stays-if (armed timer t) _ _ (timeout-Stays e timer i m h) h
step-Stays e (received i memory) m h = easy_callback-Stays i memory m h
step-Stays e (finished i ok code) m h =
    Stays-if (ok && code == 200) _ _ (do_on_success-Stays i m h) (do_on_failure-Stays i m h)
step-Stays e call_start m h = leave-IsQuiet inactive_state start_state m h
step-Stays e call_reannounce m h = leave-IsQuiet normal_state reannounce_state m h
step-Stays e call_force_reannounce m h = leave-IsQuiet normal_state force_reannounce_state m h
step-Stays e call_shutdown m h = leave-IsQuiet normal_state shutdown_state m h
step-Stays e (call_update_context dwn upd) m h = h

pub run-Stays :
    (e : Environment) (vs : List Event) (m : TrackerManager) → IsQuiet m → Stays (run e vs m)
unfolding run
run-Stays e [] m h = h
run-Stays e (v ∷ vs) m h =
    Stays-bind (step e v m) (run e vs) (step-Stays e v m h) (λ n k. run-Stays e vs n k)
