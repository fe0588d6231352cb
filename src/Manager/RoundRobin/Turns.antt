-- ===== src/Manager/RoundRobin/Turns.antt =====
-- The turns that a call of the scheduler has taken, and what the marks say of them.
use bittorrent_application_l.Base.{
  ◌≡◌, ◌≤◌, refl, ◌∙◌, ap, arith, Bool, true, false, not, Option, none, some, List, [], ◌∷◌,
  if◌then◌else◌,
}
use bittorrent_application_l.Manager.State.{
  Manager, M, Spot, discovered, disconnected, failed, Scheduler, max_inbound_inflight,
}
use bittorrent_application_l.Manager.RoundRobin.{plus_mask_current, mark, all_empty, moved}

abbrev pub mark_of : Spot → Scheduler → Bool
mark_of discovered s = s.empty_discovered
mark_of disconnected s = s.empty_disconnected
mark_of failed s = s.empty_failed

abbrev same : Spot → Spot → Bool
same discovered discovered = true
same disconnected disconnected = true
same failed failed = true
same c s = false

-- Whether a handler's latest turn started nothing, by the turns with the latest first; `before` is
-- for a handler that has had no turn.
abbrev pub idle_since : Spot → List (Spot × Bool) → Bool → Bool
idle_since s [] before = before
idle_since s ((c, started) ∷ turns) before =
    if same c s then not started else idle_since s turns before

-- From the first state by turns of handlers that had a result and did not end the loop.
pub data Turns (run : Spot → M Bool) (m : Manager) : List (Spot × Bool) → Manager → Type 0 where
  stay : Turns run m [] m
  turned :
      (turns : List (Spot × Bool)) (n n' : Manager) (started : Bool)
      → Turns run m turns n
      → run n.scheduler.current n ≡ some (started, n')
      → Turns run m ((n.scheduler.current, started) ∷ turns) (moved started n')

-- The marks are those of the turns.
abbrev pub Follows : Manager → List (Spot × Bool) → Scheduler → Type 0
Follows m turns sch = (s : Spot) → mark_of s sch ≡ idle_since s turns (mark_of s m.scheduler)

mark_of-mark :
    (s c : Spot) (b : Bool) (sch : Scheduler)
    → mark_of s (mark c b sch) ≡ (if same c s then b else mark_of s sch)
unfolding mark
mark_of-mark discovered discovered b sch = refl
mark_of-mark discovered disconnected b sch = refl
mark_of-mark discovered failed b sch = refl
mark_of-mark disconnected discovered b sch = refl
mark_of-mark disconnected disconnected b sch = refl
mark_of-mark disconnected failed b sch = refl
mark_of-mark failed discovered b sch = refl
mark_of-mark failed disconnected b sch = refl
mark_of-mark failed failed b sch = refl

pub mark-Follows :
    (m : Manager) (turns : List (Spot × Bool)) (c : Spot) (started : Bool) (sch : Scheduler)
    → Follows m turns sch
    → Follows m ((c, started) ∷ turns) (mark c (not started) sch)
mark-Follows m turns c started sch h s =
    mark_of-mark s c (not started) sch ∙ ap (λ b. if same c s then not started else b) (h s)

mark_of-current :
    (s c : Spot) (sch : Scheduler) → mark_of s (record sch { current = c }) ≡ mark_of s sch
mark_of-current discovered c sch = refl
mark_of-current disconnected c sch = refl
mark_of-current failed c sch = refl

pub moved-Follows :
    (m : Manager) (turns : List (Spot × Bool)) (started : Bool) (n : Manager)
    → Follows m turns n.scheduler
    → Follows m ((n.scheduler.current, started) ∷ turns) (moved started n).scheduler
moved-Follows m turns started n h s =
    mark_of-current s (plus_mask_current n.scheduler.current)
      (mark n.scheduler.current (not started) n.scheduler)
    ∙ mark-Follows m turns n.scheduler.current started n.scheduler h s

pub mark_of-full : (s : Spot) (sch : Scheduler) → all_empty sch ≡ true → mark_of s sch ≡ true
mark_of-full discovered sch e = ground arith
mark_of-full disconnected sch e = ground arith
mark_of-full failed sch e = ground arith

pub all_empty-mark : (c : Spot) (sch : Scheduler) → all_empty (mark c false sch) ≡ false
unfolding mark
all_empty-mark discovered sch = refl
all_empty-mark disconnected sch = ground arith
all_empty-mark failed sch = ground arith

-- How the loop ends, begun at `m`: a handler whose turn it is has no result; or enough connections are
-- in flight; or its last turn started nothing, and neither did the latest turn of any handler, or it
-- has had no turn and is marked from before.
pub data Ended (run : Spot → M Bool) (m : Manager) (result : Option (Bool × Manager)) : Type 0 where
  stuck :
      (turns : List (Spot × Bool)) (n : Manager)
      → Turns run m turns n
      → run n.scheduler.current n ≡ none
      → result ≡ none
      → Ended run m result
  enough :
      (turns : List (Spot × Bool)) (n : Manager)
      → Turns run m turns n
      → max_inbound_inflight ≤ n.statistics.inbound_inflight
      → result ≡ some (true, n)
      → Ended run m result
  all_idle :
      (turns : List (Spot × Bool)) (c : Spot) (n n' : Manager)
      → Turns run m ((c, false) ∷ turns) n
      → ((s : Spot) → idle_since s ((c, false) ∷ turns) (mark_of s m.scheduler) ≡ true)
      → result ≡ some (true, n')
      → Ended run m result
