-- ===== src/SpscQueue/Tests.antt =====
-- Runs of a queue of three cells, and the theorems there.
use bittorrent_application_l.Base.{
  ℕ, suc, ◌≡◌, ◌<◌, refl, true, false, List, [], ◌∷◌, ◌++◌, some, none, arith, length,
}
use bittorrent_application_l.SpscQueue.{
  Queue, push, pop, fill, publish, take, release, check_room, check_some, next_index,
}
use bittorrent_application_l.SpscQueue.Threads.{State, fills, publishes, Reaches, here, then, start}
use bittorrent_application_l.SpscQueue.Order.{pushed-popped, fill-full, take-empty}

abbrev cells : List ℕ
cells = 0 ∷ 0 ∷ 0 ∷ []

-- Two values fit, and a third is refused.
push_three :
    let q1 = (push 0 3 7 (start cells).shared).1 in
    let q2 = (push 0 3 8 q1).1 in ((push 0 3 9 q2).0 ≡ false) × ((pop 0 3 q2).0 ≡ some 7)
unfolding push pop fill publish take release check_room check_some next_index
push_three = (refl, refl)

abbrev one_filled : Queue ℕ
one_filled = record (start cells).shared { queue = 7 ∷ 0 ∷ 0 ∷ [] }

abbrev filled_state : State ℕ
filled_state = record (start cells) { shared = one_filled; filled = some 7 }

abbrev pushed_state : State ℕ
pushed_state = record filled_state {
  shared = record one_filled { write_idx = 1 };
  filled = none;
  pushed = 7 ∷ [];
}

fill_one : fill 0 3 7 (start cells).shared ≡ (true, one_filled)
unfolding fill check_room next_index
fill_one = refl

to_pushed : Reaches 0 3 (start cells) pushed_state
unfolding publish next_index
to_pushed =
    then (start cells) filled_state pushed_state
      (then (start cells) (start cells) filled_state (here (start cells))
        (fills (start cells) 7 one_filled refl fill_one))
      (publishes filled_state 7 refl)

pushed-popped_example : (rest : List ℕ) × (7 ∷ [] ≡ [] ++ rest) × (length rest < 3)
pushed-popped_example =
    pushed-popped 0 3 cells pushed_state refl (omega arith) (omega arith) to_pushed

abbrev two_filled : Queue ℕ
two_filled = record pushed_state.shared { queue = 7 ∷ 8 ∷ 0 ∷ [] }

abbrev second_state : State ℕ
second_state = record pushed_state { shared = two_filled; filled = some 8 }

abbrev full_state : State ℕ
full_state = record second_state {
  shared = record two_filled { write_idx = 2 };
  filled = none;
  pushed = 7 ∷ 8 ∷ [];
}

fill_two : fill 0 3 8 pushed_state.shared ≡ (true, two_filled)
unfolding fill check_room next_index
fill_two = refl

to_full : Reaches 0 3 (start cells) full_state
unfolding publish next_index
to_full =
    then (start cells) second_state full_state
      (then (start cells) pushed_state second_state to_pushed
        (fills pushed_state 8 two_filled refl fill_two))
      (publishes second_state 8 refl)

refused : fill 0 3 9 full_state.shared ≡ (false, full_state.shared)
unfolding fill check_room next_index
refused = refl

fill-full_example : (rest : List ℕ) × (7 ∷ 8 ∷ [] ≡ [] ++ rest) × (suc (length rest) ≡ 3)
fill-full_example =
    fill-full 0 3 cells full_state refl (omega arith) (omega arith) to_full 9 full_state.shared
      refused

nothing : take 0 3 (start cells).shared ≡ (none, (start cells).shared)
unfolding take check_some
nothing = refl

take-empty_example : (start cells).pushed ≡ (start cells).popped
take-empty_example =
    take-empty 0 3 cells (start cells) refl (omega arith) (omega arith) (here (start cells))
      (start cells).shared nothing
