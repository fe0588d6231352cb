-- ===== src/Tracker/Space.antt =====
-- src/Client/TrackerManager.cpp and Tracker.cpp: the manager's space, a vector of pointers, and the
-- trackers' pointers into it. A step whose result is missing is undefined in the source, or an
-- exception that nothing catches, or does not end.
use bittorrent_application_l.Base.{
  ℕ, suc, zero, ◌-◌, ◌&&◌, Option, none, some, List, [], ◌∷◌, ◌++◌, ℤ, length, set, ltb, leb, ◌==◌,
  if◌then◌else◌, ◌>>=◌,
}
use mathlib.Core.Option
use bittorrent_application_l.Bencode.{Text}
use bittorrent_application_l.Tracker.{Tracker, TrackerManager, Environment, increment, decrement}
use bittorrent_application_l.Tracker.Url.{seek_http}

-- The tracker that a pointer names, and a write through such a pointer.
unfoldable pub tracker_of : List (Text × Tracker) → ℕ → Option Tracker
tracker_of [] i = none
tracker_of ((k, t) ∷ ts) zero = some t
tracker_of ((k, t) ∷ ts) (suc i) = tracker_of ts i

unfoldable pub put_tracker : List (Text × Tracker) → ℕ → Tracker → List (Text × Tracker)
put_tracker [] i u = []
put_tracker ((k, t) ∷ ts) zero u = (k, u) ∷ ts
put_tracker ((k, t) ∷ ts) (suc i) u = (k, t) ∷ put_tracker ts i u

abbrev pub get : ℕ → TrackerManager → Option Tracker
get i m = tracker_of m.tracker_connections i

abbrev pub put : ℕ → Tracker → TrackerManager → TrackerManager
put i t m = record m { tracker_connections = put_tracker m.tracker_connections i t }

-- `*queue_ptr = value`: the pointer must be into the vector's present allocation.
unfoldable pub write_cell : Option (ℕ × ℕ) → Option ℕ → TrackerManager → Option TrackerManager
write_cell none value m = none
write_cell (some (a, j)) value m =
    if a == m.allocation && ltb j (length m.manager_space)
    then some (record m { manager_space = set m.manager_space j value })
    else none

-- A change of the counter behind `trkrs_in_trkrspace_ref`.
unfoldable pub adjust_count : Tracker → (ℤ → ℤ) → TrackerManager → Option TrackerManager
adjust_count t f m =
    if t.trkrs_in_trkrspace_ref
    then some (record m { trkrs_in_trkrspace = f m.trkrs_in_trkrspace })
    else none

unfoldable pub return_to_manager_space : ℕ → TrackerManager → Option TrackerManager
unfolding write_cell adjust_count
return_to_manager_space i m = do
  t ← get i m
  written ← write_cell t.queue_ptr (some i) m
  adjust_count t increment written

unfoldable pub send_to_protocol_space : ℕ → TrackerManager → Option TrackerManager
unfolding write_cell adjust_count
send_to_protocol_space i m = do
  t ← get i m
  written ← write_cell t.queue_ptr none m
  adjust_count t decrement written

-- push_back: a vector that is full moves to a new allocation.
unfoldable pub push_back : Environment → Option ℕ → TrackerManager → TrackerManager
push_back e p m =
    if leb m.capacity (length m.manager_space)
    then record m {
      manager_space = m.manager_space ++ (p ∷ []);
      capacity = e.grow m.capacity;
      allocation = suc m.allocation;
    }
    else record m { manager_space = m.manager_space ++ (p ∷ []) }

-- A vector with room to spare moves too.
unfoldable pub shrink_to_fit : TrackerManager → TrackerManager
shrink_to_fit m =
    if ltb (length m.manager_space) m.capacity
    then record m { capacity = length m.manager_space; allocation = suc m.allocation }
    else m

-- `queue_ptr = &manager_space.back()`
abbrev pub back : TrackerManager → Option (ℕ × ℕ)
back m = some (m.allocation, length m.manager_space - 1)

-- The tracker's pointer is pushed, and the tracker keeps where it went.
unfoldable pub seat : Environment → ℕ → TrackerManager → Tracker → TrackerManager
unfolding push_back
seat e i m t =
    let pushed = push_back e (some i) m in put i (record t { queue_ptr = back pushed }) pushed

-- One tracker of the loop in populate_manager_space.
unfoldable pub populate_tracker : Environment → ℕ → TrackerManager → Option TrackerManager
unfolding seat
populate_tracker e i m = do
  t ← get i m
  if t.has_http
      then Option.map (seat e i m) (seek_http (suc (length t.announce_urls)) t)
      else (some (record m { trkrs_in_trkrspace = decrement m.trkrs_in_trkrspace }))

-- The trackers from the i-th on, `n` of them.
unfoldable pub populate_from : Environment → ℕ → ℕ → TrackerManager → Option TrackerManager
unfolding populate_tracker
populate_from e zero i m = some m
populate_from e (suc n) i m = populate_tracker e i m >>= populate_from e n (suc i)

unfoldable pub populate_manager_space : Environment → TrackerManager → Option TrackerManager
unfolding populate_from shrink_to_fit
populate_manager_space e m = do
  m' ← populate_from e (length m.tracker_connections) 0 m
  some (shrink_to_fit m')
