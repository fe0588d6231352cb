-- ===== src/Tracker/Starting.antt =====
-- Requests, timers and the start leave each tracker with one timer.
use mathlib.Core.Option
use bittorrent_application_l.Base.{
  ℕ, suc, zero, ◌<◌, refl, inl, inr, Bool, true, false, not, ◌&&◌, Option, none, some, List, [],
  ◌∷◌, arith, length, if◌then◌else◌, Bool-cases,
}
use bittorrent_application_l.Tracker.{
  Tracker, TrackerManager, Environment, TrackerEvent, started, update,
}
use bittorrent_application_l.Tracker.Url.{get_url, seek_http}
use bittorrent_application_l.Tracker.Space.{
  put, send_to_protocol_space, push_back, seat, populate_tracker, populate_from,
  populate_manager_space,
}
use bittorrent_application_l.Tracker.Announce.{set_announce_url_for_tracker, add_request, announce}
use bittorrent_application_l.Tracker.States.{
  Action, TimerName, main_timer, least_timer, disarm, tracker_timeout_handler, cell, for_cells,
  start_tracker, start_cell, run_start_state,
}
use bittorrent_application_l.Tracker.Quiet.{
  IsSingle, IsPointer, ArePointers, IsQuiet, Stays, Stays-bind, Stays-any, put-IsQuiet, Stays-get,
  send_to_protocol_space-Stays, push_back-IsQuiet, shrink_to_fit-IsQuiet,
}
use bittorrent_application_l.Tracker.SingleTimer.{GivesSingle, seek_http-GivesSingle}

pub set_announce_url-Stays :
    (e : Environment) (ev : TrackerEvent) (i : ℕ) (m : TrackerManager)
    → IsQuiet m
    → Stays (set_announce_url_for_tracker e ev i m)
unfolding set_announce_url_for_tracker
set_announce_url-Stays e ev i m h =
    Stays-get i m _ h
      λ t s l. Stays-any (get_url t) _ (λ u. put-IsQuiet i (record t { url = _ }) m h s)

pub add_request-Stays : (i : ℕ) (m : TrackerManager) → IsQuiet m → Stays (add_request i m)
unfolding add_request
add_request-Stays i m h =
    Stays-get i m _ h λ t s l. elim (Bool-cases t.http_mode) [ inl e ↦ rw e h | inr e ↦ rw e h ]

pub announce-Stays :
    (e : Environment) (ev : TrackerEvent) (i : ℕ) (m : TrackerManager)
    → IsQuiet m
    → Stays (announce e ev i m)
unfolding announce
announce-Stays e ev i m h =
    Stays-bind (set_announce_url_for_tracker e ev i m) _ (set_announce_url-Stays e ev i m h) λ n k.
      Stays-bind (send_to_protocol_space i n) (add_request i) (send_to_protocol_space-Stays i n k)
        (λ p q. add_request-Stays i p q)

disarm-IsSingle : (timer : TimerName) (t : Tracker) → IsSingle t → IsSingle (disarm timer t)
disarm-IsSingle main_timer t s = s
disarm-IsSingle least_timer t s = (s.0, refl)

pub Stays-if :
    (b : Bool) (x y : Option TrackerManager) → Stays x → Stays y → Stays (if b then x else y)
Stays-if true x y h k = h
Stays-if false x y h k = k

pub timeout-Stays :
    (e : Environment) (timer : TimerName) (i : ℕ) (m : TrackerManager)
    → IsQuiet m
    → Stays (tracker_timeout_handler e timer i m)
unfolding tracker_timeout_handler
timeout-Stays e timer i m h = Stays-get i m _ h λ t s l.
    let d = disarm-IsSingle timer t s in
    Stays-if (not t.only_one_timer && not t.interruptible) _ _
      (put-IsQuiet i (record (disarm timer t) { interruptible = true }) m h d)
      (announce-Stays e (if t.update_state then update else started) i (put i (disarm timer t) m)
        (put-IsQuiet i (disarm timer t) m h d))

-- A loop over the cells, whose body keeps the invariant.
pub cell-IsPointer :
    (n : ℕ) (ps : List (Option ℕ)) (j : ℕ) → ArePointers n ps → IsPointer n (cell ps j)
unfolding cell
cell-IsPointer n [] j h = tt
cell-IsPointer n (p ∷ ps) zero h = h.0
cell-IsPointer n (p ∷ ps) (suc j) h = cell-IsPointer n ps j h.1

pub for_cells-Stays :
    (body : Option ℕ → Action)
    → ((p : Option ℕ) (m : TrackerManager) → IsQuiet m → Stays (body p m))
    → (n j : ℕ) (m : TrackerManager) → IsQuiet m
    → Stays (for_cells body n j m)
unfolding for_cells
for_cells-Stays body k zero j m h = h
for_cells-Stays body k (suc n) j m h =
    Stays-bind (body (cell m.manager_space j) m) (for_cells body n (suc j))
      (k (cell m.manager_space j) m h) (λ m' h'. for_cells-Stays body k n (suc j) m' h')

start_tracker-IsSingle : (t : Tracker) → IsSingle t → IsSingle (start_tracker t)
unfolding start_tracker
start_tracker-IsSingle t s = ground arith

start_cell-Stays : (p : Option ℕ) (m : TrackerManager) → IsQuiet m → Stays (start_cell p m)
unfolding start_cell
start_cell-Stays none m h = tt
start_cell-Stays (some i) m h =
    Stays-get i m _ h (λ t s l. put-IsQuiet i (start_tracker t) m h (start_tracker-IsSingle t s))

seat-Stays :
    (e : Environment) (i : ℕ) (m : TrackerManager) (o : Option Tracker)
    → IsQuiet m
    → i < length m.tracker_connections
    → GivesSingle o
    → Stays (Option.map (seat e i m) o)
unfolding seat
seat-Stays e i m none h l s = tt
seat-Stays e i m (some t) h l s =
    put-IsQuiet i _ (push_back e (some i) m) (push_back-IsQuiet e (some i) m h l) s

populate_tracker-Stays :
    (e : Environment) (i : ℕ) (m : TrackerManager) → IsQuiet m → Stays (populate_tracker e i m)
unfolding populate_tracker
populate_tracker-Stays e i m h = Stays-get i m _ h λ t s l.
    Stays-if t.has_http _ _
      (seat-Stays e i m (seek_http (suc (length t.announce_urls)) t) h l
        (seek_http-GivesSingle (suc (length t.announce_urls)) t s))
      h

populate_from-Stays :
    (e : Environment) (n i : ℕ) (m : TrackerManager) → IsQuiet m → Stays (populate_from e n i m)
unfolding populate_from
populate_from-Stays e zero i m h = h
populate_from-Stays e (suc n) i m h =
    Stays-bind (populate_tracker e i m) (populate_from e n (suc i)) (populate_tracker-Stays e i m h)
      (λ m' h'. populate_from-Stays e n (suc i) m' h')

populate-Stays :
    (e : Environment) (m : TrackerManager) → IsQuiet m → Stays (populate_manager_space e m)
unfolding populate_manager_space
populate-Stays e m h =
    Stays-bind (populate_from e (length m.tracker_connections) 0 m) _
      (populate_from-Stays e (length m.tracker_connections) 0 m h)
      (λ m' h'. shrink_to_fit-IsQuiet m' h')

pub run_start_state-Stays :
    (e : Environment) (m : TrackerManager) → IsQuiet m → Stays (run_start_state e m)
unfolding run_start_state
run_start_state-Stays e m h =
    Stays-bind (populate_manager_space e m) _ (populate-Stays e m h) λ n k.
      Stays-bind (for_cells start_cell (length n.manager_space) 0 n) _
        (for_cells-Stays start_cell start_cell-Stays (length n.manager_space) 0 n k) (λ p q. q)
