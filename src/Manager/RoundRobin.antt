-- ===== src/Manager/RoundRobin.antt =====
-- round_robin_establisher_scheduler, over the three handlers.
pub mod Turns
pub mod Marks
pub mod Rounds
use bittorrent_application_l.Base.{
  ℕ, zero, suc, Bool, true, false, not, ◌&&◌, ltb, if◌then◌else◌, Option, none, some,
}
use bittorrent_application_l.Manager.State.{
  Manager, M, pure, ◌>>=◌, ◌>>◌, modify, Spot, discovered, disconnected, failed, Scheduler,
  max_inbound_inflight,
}

-- plus_mask_current
unfoldable pub plus_mask_current : Spot → Spot
plus_mask_current discovered = disconnected
plus_mask_current disconnected = failed
plus_mask_current failed = discovered

-- empties[spot] = empty
unfoldable pub mark : Spot → Bool → Scheduler → Scheduler
mark discovered e s = record s { empty_discovered = e }
mark disconnected e s = record s { empty_disconnected = e }
mark failed e s = record s { empty_failed = e }

abbrev pub all_empty : Scheduler → Bool
all_empty s = s.empty_discovered && s.empty_disconnected && s.empty_failed

-- empties[current] = empty, and current moves on.
abbrev pub moved : Bool → Manager → Manager
moved started m = record m {
  scheduler = record (mark m.scheduler.current (not started) m.scheduler) {
    current = plus_mask_current m.scheduler.current;
  };
}

-- What follows a handler: the loop ends on three empty marks, or goes on with the next spot.
unfoldable pub turn : Bool → M Bool → M Bool
turn started rest m =
    let marked = mark m.scheduler.current (not started) m.scheduler in
    elim (all_empty marked) [
      | true ↦ some (true, record m { scheduler = marked })
      | false ↦ rest (moved started m)
    ]

-- `run` is the handler of a spot. The result says whether the loop has ended within the fuel.
module _ (run : Spot → M Bool) where
  unfoldable pub scheduler_loop : ℕ → M Bool
  unfolding turn
  scheduler_loop zero m = some (not (ltb m.statistics.inbound_inflight max_inbound_inflight), m)
  scheduler_loop (suc fuel) m = elim (ltb m.statistics.inbound_inflight max_inbound_inflight) [
    | false ↦ some (true, m)
    | true ↦ elim (run m.scheduler.current m) [
      | none ↦ none
      | some (started, m') ↦ turn started (scheduler_loop fuel) m'
    ]
  ]

-- There are at most 35 starts, and at most three turns up to each and after the last.
abbrev pub scheduler_fuel : ℕ
scheduler_fuel = 108

-- The daemon's notification is taken, and the loop runs.
unfoldable pub round_robin_establisher_scheduler : (Spot → M Bool) → M Bool
unfolding scheduler_loop
round_robin_establisher_scheduler run m =
    scheduler_loop run scheduler_fuel
      (record m { scheduler = record m.scheduler { notified = false } })
