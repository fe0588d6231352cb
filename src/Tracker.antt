-- ===== src/Tracker.antt =====
-- src/Client/TrackerManager.hpp: the tracker and the manager that holds it.
pub mod Url
pub mod Space
pub mod Response
pub mod Announce
pub mod States
pub mod Events
pub mod Quiet
pub mod SingleTimer
pub mod Starting
pub mod Rounds
pub mod Reannounce
pub mod Failures
pub mod Stale
pub mod Connections
pub mod Seek
pub mod Making
pub mod Populate
pub mod Grouping
mod Tests
pub mod Growth
pub mod Dangling
use bittorrent_application_l.Base.{
  ℕ, suc, zero, ◌-◌, ◌^◌, Bool, true, false, Option, none, some, List, [], ◌∷◌, ℤ, pos, negsuc,
}
use bittorrent_application_l.Bencode.{Text}

-- TrackerManager::Tracker, its nest with it. A timer is the seconds that it was armed with, if it
-- runs; `trkrs_in_trkrspace_ref` is whether it was set, and `queue_ptr` a cell of the manager's
-- space, by the number of the allocation that it points into.
pub record Tracker : Type 0 where
  pub has_http : Bool
  pub active_flag : Bool
  pub update_state : Bool
  pub requeueable : Bool
  pub only_one_timer : Bool
  pub interruptible : Bool
  pub min_interval : ℤ
  pub interval : ℤ
  pub min_timer_w : Option ℤ
  pub timer_w : Option ℤ
  pub tracker_id : Text
  pub failure_count : ℕ
  pub queue_ptr : Option (ℕ × ℕ)
  pub announce_urls : List Text
  pub current_announce_url_index : ℕ
  pub trkrs_in_trkrspace_ref : Bool
  pub failed_url_index : ℤ
  pub http_mode : Bool
  pub url : Text
  pub response : Text

-- Tracker(std::string)
unfoldable pub tracker : Text → Tracker
tracker url = record {
  has_http = false;
  active_flag = true;
  update_state = false;
  requeueable = true;
  only_one_timer = true;
  interruptible = true;
  min_interval = negsuc 0;
  interval = negsuc 0;
  min_timer_w = none;
  timer_w = none;
  tracker_id = [];
  failure_count = 0;
  queue_ptr = none;
  announce_urls = url ∷ [];
  current_announce_url_index = 0;
  trkrs_in_trkrspace_ref = false;
  failed_url_index = negsuc 0;
  http_mode = false;
  url = [];
  response = [];
}

-- The functions that `current_state` points to.
pub data StateFunction : Type 0 where
  start_state normal_state reannounce_state force_reannounce_state shutdown_state : StateFunction
  inactive_state : StateFunction

pub data TrackerEvent : Type 0 where
  started stopped completed update : TrackerEvent

-- The manager. A pointer to a tracker is its place among the connections; `requests` are the
-- trackers and urls that were given to the HTTP backend, the last one first. `allocation` counts the
-- allocations of `manager_space`; `trkrs_in_trkrspace` has no initial value in the source.
pub record TrackerManager : Type 0 where
  pub tracker_connections : List (Text × Tracker)
  pub manager_space : List (Option ℕ)
  pub capacity : ℕ
  pub allocation : ℕ
  pub trkrs_in_trkrspace : ℤ
  pub current_state : StateFunction
  pub uploaded : ℕ
  pub downloaded : ℕ
  pub left : ℕ
  pub info_hash_byte : Text
  pub listening_port : ℕ
  pub requests : List (ℕ × Text)

-- What the code calls and does not define: curl_escape, the client id, and the capacity that a full
-- vector grows to.
pub record Environment : Type 0 where
  pub curl_escape : Text → Text
  pub client_id : Text
  pub grow : ℕ → ℕ

-- `++` and `--` of an int.
abbrev pub increment : ℤ → ℤ
increment (pos n) = pos (suc n)
increment (negsuc zero) = pos 0
increment (negsuc (suc n)) = negsuc n

abbrev pub decrement : ℤ → ℤ
decrement (pos zero) = negsuc 0
decrement (pos (suc n)) = pos n
decrement (negsuc n) = negsuc (suc n)

-- A signed number as a size_t.
abbrev pub to_size : ℤ → ℕ
to_size (pos n) = n
to_size (negsuc n) = 2 ^ 64 - 1 - n
