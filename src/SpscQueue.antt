-- ===== src/SpscQueue.antt =====
-- src/Client/spsc_queue.hpp: the queue between one producer thread and one consumer thread.
-- `fill` and `take` are `push` and `pop` up to the store that the other thread sees; `n` is the
-- array's size, Size + 1.
pub mod Threads
pub mod Indices
pub mod Moves
pub mod Order
mod Tests
use bittorrent_application_l.Base.{
  ℕ, Bool, true, false, not, ◌==◌, if◌then◌else◌, List, Option, none, some, get_or, set, add_size,
}

pub record Queue {ℓ} (A : Type ℓ) : Type ℓ where
  pub queue : List A
  pub read_idx : ℕ
  pub cached_read_idx : ℕ
  pub write_idx : ℕ
  pub cached_write_idx : ℕ

-- index + 1, and 0 at the end of the array
unfoldable pub next_index : ℕ → ℕ → ℕ
next_index n index = if add_size index 1 == n then 0 else add_size index 1

module _ {ℓ} {A : Type ℓ} (d : A) (n : ℕ) where
  -- Whether there is room, by the producer's copy of the read index, looked up again if it says no.
  unfoldable pub check_room : Queue A → Bool × Queue A
  check_room q =
      let next = next_index n q.write_idx in
      if next == q.cached_read_idx
      then (not (next == q.read_idx), record q { cached_read_idx = q.read_idx })
      else (true, q)

  abbrev pub place : A → Bool × Queue A → Bool × Queue A
  place val (true, q) = (true, record q { queue = set q.queue q.write_idx val })
  place val (false, q) = (false, q)

  unfoldable pub fill : A → Queue A → Bool × Queue A
  fill val q = place val (check_room q)

  -- write_idx_.store
  unfoldable pub publish : Queue A → Queue A
  publish q = record q { write_idx = next_index n q.write_idx }

  abbrev pub push_end : Bool × Queue A → Bool × Queue A
  push_end (true, q) = (true, publish q)
  push_end (false, q) = (false, q)

  unfoldable pub push : A → Queue A → Bool × Queue A
  push val q = push_end (fill val q)

  -- Whether something waits, by the consumer's copy of the write index.
  unfoldable pub check_some : Queue A → Bool × Queue A
  check_some q =
      if q.read_idx == q.cached_write_idx
      then (not (q.read_idx == q.write_idx), record q { cached_write_idx = q.write_idx })
      else (true, q)

  abbrev pub fetch : Bool × Queue A → Option A × Queue A
  fetch (true, q) = (some (get_or q.queue q.read_idx d), q)
  fetch (false, q) = (none, q)

  unfoldable pub take : Queue A → Option A × Queue A
  take q = fetch (check_some q)

  -- read_idx_.store
  unfoldable pub release : Queue A → Queue A
  release q = record q { read_idx = next_index n q.read_idx }

  abbrev pub pop_end : Option A × Queue A → Option A × Queue A
  pop_end (some val, q) = (some val, release q)
  pop_end (none, q) = (none, q)

  unfoldable pub pop : Queue A → Option A × Queue A
  pop q = pop_end (take q)
