-- ===== src/Tracker/Populate.antt =====
-- The manager's space of a list of urls is always made.
use mathlib.Core.Option
use bittorrent_application_l.Base.{
  ℕ, suc, zero, ◌≡◌, true, Option, none, some, List, [], ◌∷◌, length,
}
use bittorrent_application_l.Bencode.{Text}
use bittorrent_application_l.Tracker.{Tracker, TrackerManager}
use bittorrent_application_l.Tracker.Connections.{AreAll}
use bittorrent_application_l.Tracker.Seek.{IsSeekable}

-- A tracker with an http url is at one.
abbrev pub IsReady : Tracker → Type 0
IsReady t = t.has_http ≡ true → t.http_mode ≡ true

abbrev AreReady : ℕ → List (Text × Tracker) → Type 0
AreReady zero ts = Unit {0}
AreReady (suc i) [] = Unit {0}
AreReady (suc i) ((k, t) ∷ ts) = IsReady t × AreReady i ts

-- The loop of populate_manager_space before its `i`-th tracker, of `n`.
abbrev Goes : ℕ → ℕ → Option TrackerManager → Type 0
Goes n i none = ⊥
Goes n i (some m) =
    AreAll IsSeekable m.tracker_connections
    × AreReady i m.tracker_connections
    × (length m.tracker_connections ≡ n)
