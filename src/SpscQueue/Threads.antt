-- ===== src/SpscQueue/Threads.antt =====
-- The two threads as steps on a shared queue, in any order, with what each has at hand.
use bittorrent_application_l.Base.{ℕ, ◌≡◌, true, false, List, [], ◌∷◌, ◌++◌, Option, none, some}
use bittorrent_application_l.SpscQueue.{Queue, fill, publish, take, release}

-- `filled` is a value that the producer has stored and not yet published, `taken` one that the consumer
-- has read and not yet released; `pushed` and `popped` are the finished calls' values in order.
pub record State (A : Type 0) : Type 0 where
  pub shared : Queue A
  pub filled : Option A
  pub taken : Option A
  pub pushed : List A
  pub popped : List A

module _ {A : Type 0} (d : A) (n : ℕ) where
  pub data Step : State A → State A → Type 0 where
    fills :
        (s : State A) (v : A) (q : Queue A)
        → s.filled ≡ none
        → fill d n v s.shared ≡ (true, q)
        → Step s (record s { shared = q; filled = some v })
    refuses :
        (s : State A) (v : A) (q : Queue A)
        → s.filled ≡ none
        → fill d n v s.shared ≡ (false, q)
        → Step s (record s { shared = q })
    publishes :
        (s : State A) (v : A)
        → s.filled ≡ some v
        → Step s (record s {
          shared = publish d n s.shared;
          filled = none;
          pushed = s.pushed ++ (v ∷ []);
        })
    takes :
        (s : State A) (v : A) (q : Queue A)
        → s.taken ≡ none
        → take d n s.shared ≡ (some v, q)
        → Step s (record s { shared = q; taken = some v })
    finds_none :
        (s : State A) (q : Queue A)
        → s.taken ≡ none
        → take d n s.shared ≡ (none, q)
        → Step s (record s { shared = q })
    releases :
        (s : State A) (v : A)
        → s.taken ≡ some v
        → Step s (record s {
          shared = release d n s.shared;
          taken = none;
          popped = s.popped ++ (v ∷ []);
        })

  pub data Reaches : State A → State A → Type 0 where
    here : (s : State A) → Reaches s s
    then : (s t u : State A) → Reaches s t → Step t u → Reaches s u

-- Two idle threads on a fresh queue.
abbrev pub start : {A : Type 0} → List A → State A
start cells = record {
  shared = record {
    queue = cells;
    read_idx = 0;
    cached_read_idx = 0;
    write_idx = 0;
    cached_write_idx = 0;
  };
  filled = none;
  taken = none;
  pushed = [];
  popped = [];
}
