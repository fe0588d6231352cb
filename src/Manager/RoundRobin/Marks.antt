-- ===== src/Manager/RoundRobin/Marks.antt =====
-- How near the marks are to ending the scheduler's loop.
use bittorrent_application_l.Base.{ℕ, ◌≤◌, ◌<◌, ◌≡◌, refl, ◌⊎◌, inl, inr, Bool, true, false, arith}
use bittorrent_application_l.Manager.State.{Spot, discovered, disconnected, failed, Scheduler}
use bittorrent_application_l.Manager.RoundRobin.Turns.{mark_of}
use bittorrent_application_l.Manager.RoundRobin.{plus_mask_current, mark, all_empty}

-- How many turns in a row without a start fill the marks, from the current turn on.
abbrev bit : Bool → ℕ
bit true = 1
bit false = 0

abbrev after : Spot → Spot
after discovered = disconnected
after disconnected = failed
after failed = discovered

-- 3 less the marks at the end of the round that end an unbroken run up to the current turn.
abbrev needed_after : Bool → Bool → ℕ
needed_after false before = 3
needed_after true false = 2
needed_after true true = 1

needed_after_small :
    (last before : Bool) → (0 < needed_after last before) × (needed_after last before ≤ 3)
needed_after_small false before = (omega arith, omega arith)
needed_after_small true false = (omega arith, omega arith)
needed_after_small true true = (omega arith, omega arith)

abbrev pub needed : Scheduler → ℕ
needed s = needed_after (mark_of (after (after s.current)) s) (mark_of (after s.current) s)

pub needed_small : (s : Scheduler) → (0 < needed s) × (needed s ≤ 3)
needed_small s =
    needed_after_small (mark_of (after (after s.current)) s) (mark_of (after s.current) s)

abbrev pub marks : Spot → Bool → Bool → Bool → Bool → Scheduler
marks c d x f b = record {
  current = c;
  empty_discovered = d;
  empty_disconnected = x;
  empty_failed = f;
  notified = b;
}

abbrev pub next_marks : Scheduler → Scheduler
next_marks s = record (mark s.current true s) { current = plus_mask_current s.current }

nearer_at :
    (c : Spot) (d x f b : Bool)
    → let s = marks c d x f b in
      (all_empty (mark s.current true s) ≡ true) ⊎ (needed (next_marks s) < needed s)
unfolding mark plus_mask_current
nearer_at discovered d true true b = inl refl
nearer_at discovered d true false b = inr (omega arith)
nearer_at discovered d false true b = inr (omega arith)
nearer_at discovered d false false b = inr (omega arith)
nearer_at disconnected true x true b = inl refl
nearer_at disconnected true x false b = inr (omega arith)
nearer_at disconnected false x true b = inr (omega arith)
nearer_at disconnected false x false b = inr (omega arith)
nearer_at failed true true f b = inl refl
nearer_at failed true false f b = inr (omega arith)
nearer_at failed false true f b = inr (omega arith)
nearer_at failed false false f b = inr (omega arith)

-- A turn without a start either fills the marks or brings them nearer.
pub nearer :
    (s : Scheduler)
    → (all_empty (mark s.current true s) ≡ true) ⊎ (needed (next_marks s) < needed s)
nearer s = nearer_at s.current s.empty_discovered s.empty_disconnected s.empty_failed s.notified
