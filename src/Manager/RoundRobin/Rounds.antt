-- ===== src/Manager/RoundRobin/Rounds.antt =====
-- When the scheduler's loop ends, and when it ends too soon.
use bittorrent_application_l.Base.{
  ℕ, zero, suc, ◌+◌, ◌-◌, ◌*◌, ◌≤◌, ◌<◌, ◌≡◌, refl, ap, sym, subst, List, [], ◌∷◌, ◌==◌, ◌∙◌, inl,
  inr, Bool, true, false, not, ◌&&◌, ltb, some, arith, Bool-cases, Option-cases, ltb→lt,
  ltb_false→le, lt→ltb,
}
use bittorrent_application_l.Manager.State.{
  Manager, M, get, Env, Spot, discovered, disconnected, failed, Scheduler, max_inbound_inflight,
}
use bittorrent_application_l.Manager.Scheduler.{
  run_spot, discovered_peer_scheduler, discovered_loop,
}
use bittorrent_application_l.SlotPool.{available}
use bittorrent_application_l.Manager.Inflight.Quiet.{Holds, Moved, Starts}
use bittorrent_application_l.Manager.Inflight.Handlers.{Increments, Starts-run_spot}
use bittorrent_application_l.Manager.RoundRobin.Turns.{
  Turns, stay, turned, Follows, mark-Follows, moved-Follows, mark_of-full, all_empty-mark, Ended,
  stuck, enough, all_idle,
}
use bittorrent_application_l.Manager.RoundRobin.{
  mark, all_empty, moved, turn, scheduler_loop, scheduler_fuel, round_robin_establisher_scheduler,
}
use bittorrent_application_l.Manager.RoundRobin.Marks.{needed, needed_small, nearer, marks}

-- The turns that are left at most.
abbrev turns : Manager → ℕ
turns m = 3 * (max_inbound_inflight - m.statistics.inbound_inflight) + needed m.scheduler

-- A turn that does not end the loop leaves fewer.
fewer_turns :
    (fuel : ℕ) (m m' : Manager) (started : Bool)
    → turns m ≤ suc fuel
    → all_empty (mark m'.scheduler.current (not started) m'.scheduler) ≡ false
    → Moved m started m'
    → m.statistics.inbound_inflight < max_inbound_inflight
    → turns (moved started m') ≤ fuel
fewer_turns fuel m m' true h work v room =
    omega (arith, needed_small m.scheduler, needed_small (moved true m').scheduler, v.0)
fewer_turns fuel m m' false h work v room = elim (nearer m'.scheduler) [
  | inl full ↦ cc
  | inr less ↦ omega (arith, less, ap needed v.1, v.0)
]

module _ (run : Spot → M Bool) (c : (s : Spot) → Starts (run s)) (m0 : Manager) where
  Moved-by :
      (m m' : Manager) (started : Bool)
      → m.statistics.inbound_inflight < max_inbound_inflight
      → run m.scheduler.current m ≡ some (started, m')
      → Moved m started m'
  Moved-by m m' started room e = subst (Holds (Moved m)) e (c m.scheduler.current m room)

  -- A state of the loop: the turns so far, and marks that are of them.
  abbrev At : Manager → Type 0
  At m = (turns : List (Spot × Bool)) × Turns run m0 turns m × Follows m0 turns m.scheduler

  -- What a turn makes of such a state, seen before the marks are looked at.
  abbrev Turned : Bool → Manager → Type 0
  Turned started m' =
      (turns : List (Spot × Bool)) × Turns run m0 ((m'.scheduler.current, started) ∷ turns)
        (moved started m')
      × Follows m0 turns m'.scheduler

  At-Turned :
      (m m' : Manager) (started : Bool)
      → m.statistics.inbound_inflight < max_inbound_inflight
      → run m.scheduler.current m ≡ some (started, m')
      → At m
      → Turned started m'
  At-Turned m m' started room e (turns, t, f) =
      let q = (Moved-by m m' started room e).1 in
      (
        turns,
        subst (λ (s : Scheduler). Turns run m0 ((s.current, started) ∷ turns) (moved started m'))
            (sym q) (turned turns m m' started t e),
        subst (Follows m0 turns) (sym q) f,
      )

  turn-Ended :
      (started : Bool) (rest : M Bool) (m : Manager)
      → Turned started m
      → (all_empty (mark m.scheduler.current (not started) m.scheduler) ≡ false
          → At (moved started m)
          → Ended run m0 (rest (moved started m)))
      → Ended run m0 (turn started rest m)
  unfolding turn
  turn-Ended started rest m (turns, t, f) h =
      elim (Bool-cases (all_empty (mark m.scheduler.current (not started) m.scheduler))) [
        | inl full ↦ rw (turn, full) (last started full t)
        | inr some_work ↦
            rw (turn, some_work)
              (h some_work
                ((m.scheduler.current, started) ∷ turns, t, moved-Follows m0 turns started m f))
      ]
    where
      last :
          (started : Bool)
          → all_empty (mark m.scheduler.current (not started) m.scheduler) ≡ true
          → Turns run m0 ((m.scheduler.current, started) ∷ turns) (moved started m)
          → Ended run m0 (
              some
                (true, record m { scheduler = mark m.scheduler.current (not started) m.scheduler }))
      last true full t' = let e = all_empty-mark m.scheduler.current m.scheduler in cc
      last false full t' =
          all_idle turns m.scheduler.current (moved false m)
            (record m { scheduler = mark m.scheduler.current true m.scheduler }) t'
            (λ s.
              sym (mark-Follows m0 turns m.scheduler.current false m.scheduler f s)
              ∙ mark_of-full s (mark m.scheduler.current true m.scheduler) full)
            refl

  scheduler_loop_lem :
      (fuel : ℕ) (m : Manager) → turns m ≤ fuel → At m → Ended run m0 (scheduler_loop run fuel m)
  unfolding scheduler_loop
  scheduler_loop_lem zero m h a = absurd (omega (arith, needed_small m.scheduler))
  scheduler_loop_lem (suc fuel) m h (ts, t, f) =
      elim (Bool-cases (ltb m.statistics.inbound_inflight max_inbound_inflight)) [
        | inr quota ↦
            rw (scheduler_loop, quota)
              (enough ts m t (ltb_false→le m.statistics.inbound_inflight max_inbound_inflight quota)
                refl)
        | inl room ↦
            let in_room = ltb→lt m.statistics.inbound_inflight max_inbound_inflight room in
            rw (scheduler_loop, room)
              (elim (Option-cases (run m.scheduler.current m)) [
                | inl e ↦ rw e (stuck ts m t e refl)
                | inr ((started, m'), e) ↦ rw e (
                    turn-Ended started (scheduler_loop run fuel) m'
                      (At-Turned m m' started in_room e (ts, t, f))
                      λ work a.
                        scheduler_loop_lem fuel (moved started m')
                          (fewer_turns fuel m m' started h work (Moved-by m m' started in_room e)
                            in_room)
                          a)
              ])
      ]

abbrev pub taken_notice : Manager → Manager
taken_notice m = record m { scheduler = record m.scheduler { notified = false } }

-- With an increment that counts one more connection in flight, the scheduler's loop over the three
-- handlers ends within its fuel, after turns of the handlers one after another. Either a handler has
-- no result when its turn comes (a failed assertion, a system call that is interrupted for ever, or
-- an access outside the pool); or 35 connections are in flight; or the last turn started none and so
-- did the latest turn of each handler, but for one that has had no turn and is marked as empty from an
-- earlier call.
pub scheduler-Ended :
    (env : Env) (m : Manager)
    → Increments env
    → Ended (run_spot env) (taken_notice m) (round_robin_establisher_scheduler (run_spot env) m)
unfolding round_robin_establisher_scheduler
scheduler-Ended env m incr =
    scheduler_loop_lem (run_spot env) (Starts-run_spot env incr) (taken_notice m) scheduler_fuel
      (taken_notice m) (omega (arith, needed_small (taken_notice m).scheduler))
      ([], stay, λ s. refl)

mark_full_at :
    (c : Spot) (d x f : Bool)
    → (d && x && f) ≡ true
    → (b : Bool) → all_empty (mark c true (marks c d x f b)) ≡ true
unfolding mark
mark_full_at discovered true true true e b = refl
mark_full_at disconnected true true true e b = refl
mark_full_at failed true true true e b = refl
mark_full_at c false x f e b = cc
mark_full_at c true false f e b = cc
mark_full_at c true true false e b = cc

mark_full : (s : Scheduler) → all_empty s ≡ true → all_empty (mark s.current true s) ≡ true
mark_full s e =
    mark_full_at s.current s.empty_discovered s.empty_disconnected s.empty_failed e s.notified

starved :
    (run : Spot → M Bool) (fuel : ℕ) (m : Manager)
    → m.statistics.inbound_inflight < max_inbound_inflight
    → all_empty m.scheduler ≡ true
    → run m.scheduler.current m ≡ some (false, m)
    → scheduler_loop run (suc fuel) m
      ≡ some (true, record m { scheduler = mark m.scheduler.current true m.scheduler })
unfolding scheduler_loop turn
starved run fuel m room full idle =
    rw
      (
        scheduler_loop,
        lt→ltb m.statistics.inbound_inflight max_inbound_inflight room,
        idle,
        turn,
        mark_full m.scheduler full,
      )
      refl

-- With no address in the cache the first handler does nothing.
no_addresses :
    (env : Env) (m : Manager) → m.cache.size ≡ 0 → discovered_peer_scheduler env m ≡ some (false, m)
unfolding discovered_peer_scheduler discovered_loop get
no_addresses env m e = elim (Bool-cases (available m.connection_pool == 0)) [
  | inl none_free ↦ rw (discovered_peer_scheduler, get, none_free) refl
  | inr some_free ↦ rw (discovered_peer_scheduler, get, some_free, e, discovered_loop) refl
]

-- The marks outlive the call: below the limit, with all three set by an earlier call and the turn at
-- discovered peers, of which none is cached, the scheduler ends without looking at the queues of
-- disconnected and failed peers, whatever waits there: it only takes the notification.
pub scheduler-starved :
    (env : Env) (m : Manager)
    → m.statistics.inbound_inflight < max_inbound_inflight
    → m.scheduler ≡ marks discovered true true true true
    → m.cache.size ≡ 0
    → round_robin_establisher_scheduler (run_spot env) m
      ≡ some (true, record m { scheduler = marks discovered true true true false })
unfolding round_robin_establisher_scheduler mark run_spot
scheduler-starved env m room e no_cache =
    ap (λ s. round_robin_establisher_scheduler (run_spot env) (record m { scheduler = s })) e
    ∙ starved (run_spot env) 107 turn_at_discovered room refl
        (no_addresses env turn_at_discovered no_cache)
  where
    turn_at_discovered : Manager
    turn_at_discovered = record m { scheduler = marks discovered true true true false }
