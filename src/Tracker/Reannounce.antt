-- ===== src/Tracker/Reannounce.antt =====
-- No event gives a tracker a second timer, so a reannouncement does nothing.
use bittorrent_application_l.Base.{
  ℕ, suc, zero, ◌≡◌, refl, sym, subst, not, ◌&&◌, Option, none, some, List, [], arith, length,
  if◌then◌else◌,
}
use bittorrent_application_l.Bencode.{Text}
use bittorrent_application_l.Tracker.{Tracker, TrackerManager, Environment, update, normal_state}
use bittorrent_application_l.Tracker.Url.{initiatlize_trackers}
use bittorrent_application_l.Tracker.Space.{put}
use bittorrent_application_l.Tracker.Announce.{announce}
use bittorrent_application_l.Tracker.States.{
  main_timer, disarm, cell, for_cells, enter, reannounce_cell, run_reannounce_state,
}
use bittorrent_application_l.Tracker.Events.{Event, run}
use bittorrent_application_l.Tracker.Quiet.{
  IsSingle, AreSingle, IsPointer, ArePointers, IsQuiet, Stays, initiatlize_trackers-AreSingle,
}
use bittorrent_application_l.Tracker.Connections.{tracker_of_lt, tracker_of-AreAll}
use bittorrent_application_l.Tracker.Starting.{cell-IsPointer}
use bittorrent_application_l.Tracker.Rounds.{run-Stays}

-- A reannouncement passes over a tracker with one timer.
reannounce_cell-IsQuiet :
    (e : Environment) (p : Option ℕ) (m : TrackerManager)
    → IsQuiet m
    → IsPointer (length m.tracker_connections) p
    → reannounce_cell e p m ≡ some m
unfolding reannounce_cell
reannounce_cell-IsQuiet e none m h l = refl
reannounce_cell-IsQuiet e (some i) m (h, p) l =
    let (t, f) = tracker_of_lt m.tracker_connections i l in
    let (s, _) = tracker_of-AreAll IsSingle m.tracker_connections i h f in rw f (passed t s)
  where
    passed :
        (t : Tracker)
        → IsSingle t
        → (if not t.only_one_timer && t.interruptible && t.update_state
            then announce e update i (put i (disarm main_timer t) m)
            else (some m))
          ≡ some m
    passed t s = ground arith

for_cells-IsQuiet :
    (e : Environment) (n j : ℕ) (m : TrackerManager)
    → IsQuiet m
    → for_cells (reannounce_cell e) n j m ≡ some m
unfolding for_cells
for_cells-IsQuiet e zero j m h = refl
for_cells-IsQuiet e (suc n) j m h =
    rw
      (reannounce_cell-IsQuiet e (cell m.manager_space j) m h
        (cell-IsPointer (length m.tracker_connections) m.manager_space j h.1))
      (for_cells-IsQuiet e n (suc j) m h)

-- From a manager made from a list of urls, whatever events have happened and as long as none of them
-- was undefined, no tracker's second timer runs and each has only_one_timer set; so the reannounce
-- state makes no request, leaves every tracker as it is, and goes back to the normal state.
pub run-reannounce :
    (e : Environment) (urls : List Text) (vs : List Event) (m m' : TrackerManager)
    → initiatlize_trackers urls [] ≡ some m.tracker_connections
    → m.manager_space ≡ []
    → run e vs m ≡ some m'
    → AreSingle m'.tracker_connections × (run_reannounce_state e m' ≡ some (enter normal_state m'))
unfolding run_reannounce_state
run-reannounce e urls vs m m' made empty ran =
    let p : ArePointers (length m.tracker_connections) m.manager_space =
      subst (ArePointers (length m.tracker_connections)) (sym empty) tt in
    let h : IsQuiet m' =
      subst Stays ran (run-Stays e vs m (initiatlize_trackers-AreSingle urls made, p)) in
    (h.0, rw (for_cells-IsQuiet e (length m'.manager_space) 0 m' h))
