-- ===== src/Tracker/Dangling.antt =====
-- The pointers into the manager's space, once it is populated.
use bittorrent_application_l.Base.{
  ℕ, ◌+◌, ◌<◌, ◌≤◌, ◌≡◌, refl, sym, subst, inl, inr, Option, none, some, List, [], ◌∷◌, arith,
  length, ◌>>=◌, ltb, Bool-cases, Option-cases, ℕ_discrete, suc, zero, ap, ◌∙◌,
}
use bittorrent_application_l.Bencode.{Text}
use bittorrent_application_l.Tracker.{Tracker, TrackerManager, Environment, normal_state}
use bittorrent_application_l.Tracker.States.{
  start_tracker, first_start, later_start, start_cell, for_cells, cell, run_start_state, enter,
}
use bittorrent_application_l.Tracker.Connections.{tracker_of-put_self, tracker_of-put_apart}
use bittorrent_application_l.Tracker.Space.{
  get, tracker_of, put_tracker, write_cell, shrink_to_fit, populate_from, populate_manager_space,
  return_to_manager_space, send_to_protocol_space,
}
use bittorrent_application_l.Tracker.Growth.{PointsInto, Stage, IsStage, Goes, populate_from-Goes}

-- A pointer into another allocation is written through to freed memory.
write_cell-freed :
    (a j : ℕ) (v : Option ℕ) (m : TrackerManager)
    → a < m.allocation
    → write_cell (some (a, j)) v m ≡ none
unfolding write_cell
write_cell-freed a j v m l = ground arith

-- Tracker `i` points into memory that the vector has left.
abbrev Freed : ℕ → TrackerManager → Type 0
Freed i m = (a : ℕ) × (a < m.allocation) × PointsInto i a m.tracker_connections

-- What that means for the tracker: the pointer that it holds, and every use of it.
pub record Dangles (i : ℕ) (m : TrackerManager) (t : Tracker) : Type 0 where
  pub held : get i m ≡ some t
  pub allocation : ℕ
  pub cell : ℕ
  pub pointer : t.queue_ptr ≡ some (allocation, cell)
  pub left_behind : allocation < m.allocation
  pub unwritable : (value : Option ℕ) → write_cell t.queue_ptr value m ≡ none
  pub not_sent : send_to_protocol_space i m ≡ none
  pub not_returned : return_to_manager_space i m ≡ none

-- The first cell of a populated space that has a second.
abbrev FirstFreed : List (Option ℕ) → TrackerManager → Type 0
FirstFreed (some i ∷ (p ∷ ps)) m = Freed i m
FirstFreed _ m = Unit {0}

populated-FirstFreed :
    (n : ℕ) (ps : List (Option ℕ)) (m m' : TrackerManager)
    → Stage n ps m.capacity m.allocation m.tracker_connections
    → m'.tracker_connections ≡ m.tracker_connections
    → m.allocation ≤ m'.allocation
    → FirstFreed ps m'
populated-FirstFreed n [] m m' h e l = tt
populated-FirstFreed n (none ∷ ps) m m' h e l = absurd h
populated-FirstFreed n (some i ∷ []) m m' h e l = tt
populated-FirstFreed n (some i ∷ (p ∷ ps)) m m' (b, (a, k, q)) e l =
    (a, omega arith, subst (PointsInto i a) (sym e) q)

-- What shrink_to_fit leaves alone.
shrink_to_fit_keeps :
    (m : TrackerManager)
    → ((shrink_to_fit m).manager_space ≡ m.manager_space)
      × ((shrink_to_fit m).tracker_connections ≡ m.tracker_connections)
      × (m.allocation ≤ (shrink_to_fit m).allocation)
unfolding shrink_to_fit
shrink_to_fit_keeps m = elim (Bool-cases (ltb (length m.manager_space) m.capacity)) [
  | inl c ↦ rw c (refl, refl, omega arith)
  | inr c ↦ rw c (refl, refl, omega arith)
]

abbrev PopulatedFreed : Option TrackerManager → Type 0
PopulatedFreed none = Unit {0}
PopulatedFreed (some m) = FirstFreed m.manager_space m

populate-PopulatedFreed :
    (e : Environment) (m : TrackerManager)
    → e.grow 0 ≡ 1
    → IsStage 0 m
    → PopulatedFreed (populate_manager_space e m)
unfolding populate_manager_space
populate-PopulatedFreed e m one h =
    next (0 + length m.tracker_connections) (populate_from e (length m.tracker_connections) 0 m)
      (populate_from-Goes e (length m.tracker_connections) 0 m one h)
  where
    next :
        (n : ℕ) (o : Option TrackerManager)
        → Goes n o
        → PopulatedFreed (o >>= λ m'. some (shrink_to_fit m'))
    next n none g = tt
    next n (some p) g =
        let (s, t, a) = shrink_to_fit_keeps p in
        subst (λ ps. FirstFreed ps (shrink_to_fit p)) (sym s)
          (populated-FirstFreed n p.manager_space p (shrink_to_fit p) g t a)

-- The loop of start_state keeps the space, and no tracker's pointer changes.
abbrev KeepsFreed : ℕ → TrackerManager → TrackerManager → Type 0
KeepsFreed i m m' =
    (m'.manager_space ≡ m.manager_space) × (m'.allocation ≡ m.allocation) × (Freed i m → Freed i m')

-- So if the step has a result.
abbrev KeepsIn : ℕ → TrackerManager → Option TrackerManager → Type 0
KeepsIn i m none = Unit {0}
KeepsIn i m (some m') = KeepsFreed i m m'

start_tracker_keeps : (t : Tracker) → (start_tracker t).queue_ptr ≡ t.queue_ptr
unfolding start_tracker first_start later_start
start_tracker_keeps t = ground arith

PointsInto-start :
    (i n a : ℕ) (ts : List (Text × Tracker)) (t : Tracker)
    → tracker_of ts n ≡ some t
    → PointsInto i a ts
    → PointsInto i a (put_tracker ts n (start_tracker t))
PointsInto-start i n a ts t e (u, j, f, q) = elim (ℕ_discrete i n) [
  | yes same ↦
      let p : tracker_of (put_tracker ts n (start_tracker t)) i ≡ some (start_tracker t) =
        ap (tracker_of (put_tracker ts n (start_tracker t))) same
        ∙ tracker_of-put_self ts n (start_tracker t) e in
      let r : some t ≡ some u = sym e ∙ ap (tracker_of ts) (sym same) ∙ f in
      let d : t.queue_ptr ≡ u.queue_ptr = ap (λ o. pointer_of o) r in
      (start_tracker t, j, p, start_tracker_keeps t ∙ d ∙ q)
  | no apart ↦ (u, j, tracker_of-put_apart ts i n (start_tracker t) apart ∙ f, q)
]
  where
    pointer_of : Option Tracker → Option (ℕ × ℕ)
    pointer_of none = none
    pointer_of (some u) = u.queue_ptr

start_cell-KeepsIn : (i : ℕ) (p : Option ℕ) (m : TrackerManager) → KeepsIn i m (start_cell p m)
unfolding start_cell
start_cell-KeepsIn i none m = tt
start_cell-KeepsIn i (some n) m = elim (Option-cases (get n m)) [
  | inl e ↦ rw e tt
  | inr (t, e) ↦
      rw e (refl, refl, λ (a, l, p). (a, l, PointsInto-start i n a m.tracker_connections t e p))
]

KeepsIn-bind :
    (i : ℕ) (m : TrackerManager) (o : Option TrackerManager)
    (f : TrackerManager → Option TrackerManager)
    → KeepsIn i m o
    → ((m' : TrackerManager) → KeepsIn i m' (f m'))
    → KeepsIn i m (o >>= f)
KeepsIn-bind i m none f h k = tt
KeepsIn-bind i m (some m1) f (s, a, h) k = join (f m1) (k m1)
  where
    join : (o : Option TrackerManager) → KeepsIn i m1 o → KeepsIn i m o
    join none g = tt
    join (some m2) (t, b, g) = (t ∙ s, b ∙ a, λ p. g (h p))

for_cells-KeepsIn : (i n j : ℕ) (m : TrackerManager) → KeepsIn i m (for_cells start_cell n j m)
unfolding for_cells
for_cells-KeepsIn i zero j m = (refl, refl, λ p. p)
for_cells-KeepsIn i (suc n) j m =
    KeepsIn-bind i m (start_cell (cell m.manager_space j) m) (for_cells start_cell n (suc j))
      (start_cell-KeepsIn i (cell m.manager_space j) m) (for_cells-KeepsIn i n (suc j))

-- From a populated space to the end of start_state.
StartedFreed-after :
    (p : TrackerManager) (o : Option TrackerManager) (i : ℕ) (q : Option ℕ) (ps : List (Option ℕ))
    {m' : TrackerManager}
    → FirstFreed p.manager_space p
    → KeepsIn i p o
    → (o >>= λ r. some (enter normal_state r)) ≡ some m'
    → m'.manager_space ≡ some i ∷ (q ∷ ps)
    → Freed i m'
StartedFreed-after p none i q ps f k ran cells = cc
StartedFreed-after p (some r) i q ps {m'} f (s, a, g) ran cells =
    let e : some (enter normal_state r) ≡ some m' = ran in
    subst FreedIn e (g (subst (λ qs. FirstFreed qs p) (sym s ∙ space_of e ∙ cells) f))
  where
    FreedIn : Option TrackerManager → Type 0
    FreedIn none = Unit {0}
    FreedIn (some n) = Freed i n

    space_of : some (enter normal_state r) ≡ some m' → r.manager_space ≡ m'.manager_space
    space_of e = ground arith

started-Freed :
    (e : Environment) (m m' : TrackerManager) (i : ℕ) (p : Option ℕ) (ps : List (Option ℕ))
    → e.grow 0 ≡ 1
    → IsStage 0 m
    → run_start_state e m ≡ some m'
    → m'.manager_space ≡ some i ∷ (p ∷ ps)
    → Freed i m'
unfolding run_start_state
started-Freed e m m' i p ps one h ran cells =
    from (populate_manager_space e m) (populate-PopulatedFreed e m one h) ran
  where
    from :
        (o : Option TrackerManager)
        → PopulatedFreed o
        → (o >>= λ n.
            for_cells start_cell (length n.manager_space) 0 n >>= λ r. some (enter normal_state r))
          ≡ some m'
        → Freed i m'
    from none f r = cc
    from (some n) f r =
        StartedFreed-after n (for_cells start_cell (length n.manager_space) 0 n) i p ps f
          (for_cells-KeepsIn i (length n.manager_space) 0 n) r cells

-- Of an empty space that grows to one cell first, as vectors do: once start_state has put two
-- trackers or more there, the first one's queue_ptr is into an allocation that the vector has left.
-- No write through it has a defined result, so neither send_to_protocol_space nor
-- return_to_manager_space has one for that tracker.
pub run_start_state-dangling :
    (e : Environment) (m m' : TrackerManager) (i : ℕ) (p : Option ℕ) (ps : List (Option ℕ))
    → e.grow 0 ≡ 1
    → m.manager_space ≡ []
    → m.capacity ≡ 0
    → run_start_state e m ≡ some m'
    → m'.manager_space ≡ some i ∷ (p ∷ ps)
    → (t : Tracker) × Dangles i m' t
unfolding send_to_protocol_space return_to_manager_space
run_start_state-dangling e m m' i p ps one empty none_yet ran cells =
    let h : IsStage 0 m =
      subst (λ qs. Stage 0 qs m.capacity m.allocation m.tracker_connections) (sym empty) none_yet in
    let (a, l, (t, j, f, q)) = started-Freed e m m' i p ps one h ran cells in
    (
      t,
      record {
        held = f;
        allocation = a;
        cell = j;
        pointer = q;
        left_behind = l;
        unwritable = λ value. rw q (write_cell-freed a j value m' l);
        not_sent = rw (f, q, write_cell-freed a j none m' l) refl;
        not_returned = rw (f, q, write_cell-freed a j (some i) m' l) refl;
      },
    )
