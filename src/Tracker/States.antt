-- ===== src/Tracker/States.antt =====
-- src/Client/TrackerManager.cpp: the state functions, the timers' callback and the public calls.
use bittorrent_application_l.Base.{
  ℕ, suc, zero, Bool, true, false, not, ◌&&◌, Option, none, some, List, [], ◌∷◌, ℤ, pos, negsuc,
  length, ◌==◌, if◌then◌else◌, ◌>>=◌,
}
use bittorrent_application_l.Tracker.{
  Tracker, TrackerManager, Environment, StateFunction, start_state, normal_state, reannounce_state,
  force_reannounce_state, shutdown_state, inactive_state, started, stopped, completed, update,
}
use bittorrent_application_l.Tracker.Space.{
  get, put, populate_manager_space, send_to_protocol_space,
}
use bittorrent_application_l.Tracker.Announce.{announce, set_announce_url_for_tracker, add_request}

abbrev pub Action : Type 0
Action = TrackerManager → Option TrackerManager

abbrev alter : ℕ → (Tracker → Tracker) → Action
alter i f m = get i m >>= λ t. some (put i (f t) m)

-- The two timers of a tracker.
pub data TimerName : Type 0 where
  main_timer least_timer : TimerName

abbrev pub disarm : TimerName → Tracker → Tracker
disarm main_timer t = record t { timer_w = none }
disarm least_timer t = record t { min_timer_w = none }

-- tracker_timeout_handler
unfoldable pub tracker_timeout_handler : Environment → TimerName → ℕ → Action
unfolding announce
tracker_timeout_handler e timer i m = do
  t ← get i m
  let stopped_m = put i (disarm timer t) m
  if not t.only_one_timer && not t.interruptible
      then some (put i (record (disarm timer t) { interruptible = true }) m)
      else (announce e (if t.update_state then update else started) i stopped_m)

-- The pointer in a cell of the manager's space.
unfoldable pub cell : List (Option ℕ) → ℕ → Option ℕ
cell [] j = none
cell (p ∷ ps) zero = p
cell (p ∷ ps) (suc j) = cell ps j

-- `for (Tracker* trkr : manager_space)`, `n` cells from the j-th on, each read when its turn comes.
unfoldable pub for_cells : (Option ℕ → Action) → ℕ → ℕ → Action
unfolding cell
for_cells body zero j m = some m
for_cells body (suc n) j m = body (cell m.manager_space j) m >>= for_cells body n (suc j)

abbrev is_unset : ℤ → Bool
is_unset (pos n) = false
is_unset (negsuc n) = n == 0

-- The first time that a tracker is queued, and a later time.
unfoldable pub first_start : Tracker → Tracker
first_start t = record t {
  requeueable = true;
  trkrs_in_trkrspace_ref = true;
  only_one_timer = true;
  interval = pos 0;
  timer_w = some (pos 0);
}

unfoldable pub later_start : Tracker → Tracker
later_start t = record t {
  requeueable = true;
  timer_w = some t.interval;
  min_timer_w = if t.only_one_timer then t.min_timer_w else some t.min_interval;
}

unfoldable pub start_tracker : Tracker → Tracker
unfolding first_start later_start
start_tracker t =
    if is_unset t.interval && is_unset t.min_interval then first_start t else later_start t

-- The body of start_state's loop, which reads through each pointer.
unfoldable pub start_cell : Option ℕ → Action
unfolding start_tracker
start_cell none m = none
start_cell (some i) m = alter i start_tracker m

abbrev pub enter : StateFunction → TrackerManager → TrackerManager
enter f m = record m { current_state = f }

unfoldable pub run_start_state : Environment → Action
unfolding start_cell for_cells
run_start_state e m = do
  populated ← populate_manager_space e m
  ready ← for_cells start_cell (length populated.manager_space) 0 populated
  some (enter normal_state ready)

unfoldable pub reannounce_cell : Environment → Option ℕ → Action
unfolding announce
reannounce_cell e none m = some m
reannounce_cell e (some i) m = do
  t ← get i m
  if not t.only_one_timer && t.interruptible && t.update_state
      then announce e update i (put i (disarm main_timer t) m)
      else (some m)

unfoldable pub run_reannounce_state : Environment → Action
unfolding for_cells reannounce_cell
run_reannounce_state e m = do
  done_m ← for_cells (reannounce_cell e) (length m.manager_space) 0 m
  some (enter normal_state done_m)

unfoldable pub force_cell : Environment → Option ℕ → Action
unfolding announce
force_cell e none m = some m
force_cell e (some i) m = do
  t ← get i m
  if t.update_state
      then announce e update i (put i (disarm least_timer (disarm main_timer t)) m)
      else (some m)

unfoldable pub run_force_reannounce_state : Environment → Action
unfolding for_cells force_cell
run_force_reannounce_state e m = do
  done_m ← for_cells (force_cell e) (length m.manager_space) 0 m
  some (enter normal_state done_m)

-- The last request of a tracker that has answered before.
unfoldable pub last_request : Environment → ℕ → Tracker → Action
unfolding set_announce_url_for_tracker add_request
last_request e i t m =
    if t.update_state
    then (let quiet = if t.only_one_timer then t else disarm least_timer t in
        set_announce_url_for_tracker e (if m.left == 0 then completed else stopped) i
          (put i quiet m)
        >>= add_request i)
    else some m

unfoldable pub shutdown_cell : Environment → Option ℕ → Action
unfolding last_request send_to_protocol_space
shutdown_cell e none m = some m
shutdown_cell e (some i) m = do
  t ← get i m
  let quiet = record (disarm main_timer t) { requeueable = false }
  sent ← send_to_protocol_space i (put i quiet m)
  last_request e i quiet sent

unfoldable pub is_zero : ℤ → Bool
is_zero (pos n) = n == 0
is_zero (negsuc n) = false

unfoldable pub run_shutdown_state : Environment → Action
unfolding for_cells shutdown_cell is_zero
run_shutdown_state e m = do
  done_m ← for_cells (shutdown_cell e) (length m.manager_space) 0 m
  some (if is_zero done_m.trkrs_in_trkrspace then enter inactive_state done_m else done_m)

-- The public calls: each is refused outside the one state that it may leave.
unfoldable pub is_state : StateFunction → StateFunction → Bool
is_state start_state start_state = true
is_state normal_state normal_state = true
is_state reannounce_state reannounce_state = true
is_state force_reannounce_state force_reannounce_state = true
is_state shutdown_state shutdown_state = true
is_state inactive_state inactive_state = true
is_state _ _ = false

unfoldable pub leave : StateFunction → StateFunction → TrackerManager → TrackerManager
unfolding is_state
leave from to m = if is_state m.current_state from then enter to m else m

unfoldable pub start : TrackerManager → TrackerManager
unfolding leave
start m = leave inactive_state start_state m

unfoldable pub reannounce : TrackerManager → TrackerManager
unfolding leave
reannounce m = leave normal_state reannounce_state m

unfoldable pub force_reannounce : TrackerManager → TrackerManager
unfolding leave
force_reannounce m = leave normal_state force_reannounce_state m

unfoldable pub shutdown : TrackerManager → TrackerManager
unfolding leave
shutdown m = leave normal_state shutdown_state m

-- `(this->*current_state)()`; the two states that wait leave the rest to the events.
unfoldable pub run_state : Environment → StateFunction → Action
unfolding run_start_state run_reannounce_state run_force_reannounce_state run_shutdown_state
run_state e start_state m = run_start_state e m
run_state e normal_state m = some m
run_state e reannounce_state m = run_reannounce_state e m
run_state e force_reannounce_state m = run_force_reannounce_state e m
run_state e shutdown_state m = run_shutdown_state e m
run_state e inactive_state m = some m
