-- ===== src/SpscQueue/Order.antt =====
-- The invariant of the two threads: nothing is lost, doubled or reordered, in any interleaving.
use bittorrent_application_l.Base.{
  ℕ, zero, suc, ◌%◌, ◌^◌, ◌≤◌, ◌<◌, ◌≡◌, refl, sym, ap, ap₂, subst, ◌∙◌, inl, inr, Bool, true,
  false, List, [], ◌∷◌, ◌++◌, none, some, arith, length, append_assoc, append-nil, mod-eq_of_lt,
}
use bittorrent_application_l.Window.{window, length-window}
use bittorrent_application_l.SpscQueue.{
  Queue, place, fetch, check_room, fill, publish, check_some, take, release,
}
use bittorrent_application_l.SpscQueue.Indices.{
  Shape, waiting, Filled, Taken, Room, Found, clash, next_index_lem, check_room_lem, check_some_lem,
}
use bittorrent_application_l.SpscQueue.Moves.{
  place-Stored, place-Looked, fetch-Taken, fetch-none, publish-waiting, publish-Shape,
  release-Shape, present, carry_taken, carry_filled,
}
use bittorrent_application_l.SpscQueue.Threads.{
  State, Step, fills, refuses, publishes, takes, finds_none, releases, Reaches, here, then, start,
}

module _ {A : Type 0} (d : A) (n : ℕ) where
  -- The finished pushes are the finished pops followed by what waits, in order, and the queue and what
  -- the threads have at hand are in shape.
  pub record IsValid (s : State A) : Type 0 where
    pub len : ℕ
    pub behind : ℕ
    pub ahead : ℕ
    pub shape : Shape d n s.shared len behind ahead
    pub history : s.pushed ≡ s.popped ++ waiting d n s.shared len
    pub filled : Filled d n s.filled s.shared len behind
    pub taken : Taken d n s.taken s.shared ahead

  fills-IsValid :
      (s : State A) (v : A) (q : Queue A)
      → s.filled ≡ none
      → fill d n v s.shared ≡ (true, q)
      → IsValid s
      → IsValid (record s { shared = q; filled = some v })
  unfolding fill
  fills-IsValid s v q e f i =
      let st =
        place-Stored d n v s.shared q i.len i.ahead (check_room d n s.shared)
          (check_room_lem d n s.shared i.len i.behind i.ahead i.shape) f in
      record {
        len = i.len;
        behind = st.behind;
        ahead = i.ahead;
        shape = st.shape;
        history = i.history ∙ ap (◌++◌ s.popped) (sym st.same);
        filled = st.filled;
        taken = st.taken s.taken i.taken;
      }

  refuses-IsValid :
      (s : State A) (v : A) (q : Queue A)
      → s.filled ≡ none
      → fill d n v s.shared ≡ (false, q)
      → IsValid s
      → IsValid (record s { shared = q })
  unfolding fill
  refuses-IsValid s v q e f i =
      let lk =
        place-Looked d n v s.shared q i.len i.ahead (check_room d n s.shared)
          (check_room_lem d n s.shared i.len i.behind i.ahead i.shape) f in
      record {
        len = i.len;
        behind = lk.behind;
        ahead = lk.ahead';
        shape = lk.shape;
        history =
            i.history
            ∙ ap (◌++◌ s.popped) (sym (ap₂ (λ cells r. window d n cells r i.len) lk.cells lk.read));
        filled = subst (λ w. Filled d n w q i.len lk.behind) (sym e) tt;
        taken =
            carry_taken d n s.shared q i.ahead lk.ahead' lk.more lk.cells lk.read s.taken i.taken;
      }

  publishes-IsValid :
      (s : State A) (v : A)
      → s.filled ≡ some v
      → IsValid s
      → IsValid
          (record s { shared = publish d n s.shared; filled = none; pushed = s.pushed ++ (v ∷ []) })
  unfolding publish
  publishes-IsValid s v e i =
      let cell : Filled d n (some v) s.shared i.len i.behind =
        subst (λ w. Filled d n w s.shared i.len i.behind) e i.filled in
      record {
        len = suc i.len;
        behind = i.behind;
        ahead = i.ahead;
        shape = publish-Shape d n s.shared i.len i.behind i.ahead i.shape cell.0;
        history =
            ap (λ xs. xs ++ (v ∷ [])) i.history
            ∙ append_assoc s.popped (waiting d n s.shared i.len) (v ∷ [])
            ∙ ap (◌++◌ s.popped)
                (sym (publish-waiting d n s.shared i.len i.behind i.ahead v i.shape cell.1));
        filled = tt;
        taken =
            carry_taken d n s.shared (publish d n s.shared) i.ahead i.ahead (omega arith) refl refl
              s.taken i.taken;
      }

  takes-IsValid :
      (s : State A) (v : A) (q : Queue A)
      → take d n s.shared ≡ (some v, q)
      → IsValid s
      → IsValid (record s { shared = q; taken = some v })
  unfolding take
  takes-IsValid s v q f i =
      let (ahead', cached, e, shape, held) =
        fetch-Taken d n s.shared q i.len i.behind i.ahead v (check_some d n s.shared)
          (check_some_lem d n s.shared i.len i.behind i.ahead i.shape) f in
      record {
        len = i.len;
        behind = i.behind;
        ahead = ahead';
        shape = shape;
        history = i.history ∙ ap (λ z. s.popped ++ waiting d n z i.len) (sym e);
        filled =
            carry_filled d n s.shared q i.len i.len i.behind i.behind (omega arith)
              (ap (λ z. z.queue) e) (ap (λ z. z.write_idx) e) s.filled i.filled;
        taken = held;
      }

  finds_none-IsValid :
      (s : State A) (q : Queue A)
      → s.taken ≡ none
      → take d n s.shared ≡ (none, q)
      → IsValid s
      → IsValid (record s { shared = q })
  unfolding take
  finds_none-IsValid s q h f i =
      let (ahead', cached, e, shape) =
        fetch-none d n s.shared q i.len i.behind i.ahead (check_some d n s.shared)
          (check_some_lem d n s.shared i.len i.behind i.ahead i.shape) f in
      record {
        len = i.len;
        behind = i.behind;
        ahead = ahead';
        shape = shape;
        history = i.history ∙ ap (λ z. s.popped ++ waiting d n z i.len) (sym e);
        filled =
            carry_filled d n s.shared q i.len i.len i.behind i.behind (omega arith)
              (ap (λ z. z.queue) e) (ap (λ z. z.write_idx) e) s.filled i.filled;
        taken = subst (λ w. Taken d n w q ahead') (sym h) tt;
      }

  -- The invariant with the lengths as they are, for the case where something waits.
  releases_at :
      (s : State A) (v : A) (len behind ahead : ℕ)
      → Shape d n s.shared len behind ahead
      → s.pushed ≡ s.popped ++ waiting d n s.shared len
      → Filled d n s.filled s.shared len behind
      → Taken d n (some v) s.shared ahead
      → IsValid
          (record s { shared = release d n s.shared; taken = none; popped = s.popped ++ (v ∷ []) })
  unfolding release
  releases_at s v len behind zero shape e g h = absurd (omega (arith, h.0))
  releases_at s v zero behind (suc ahead) shape e g h = absurd (omega (arith, shape.ahead_in))
  releases_at s v (suc len) behind (suc ahead) shape e g h = record {
    len = len;
    behind = suc behind;
    ahead = ahead;
    shape = release-Shape d n s.shared len behind ahead shape;
    history =
        e
        ∙ ap (λ x. s.popped ++ (x ∷ window d n s.shared.queue (suc s.shared.read_idx % n) len)) h.1
        ∙ ap (λ r. s.popped ++ (v ∷ window d n s.shared.queue r len))
            (sym (next_index_lem n s.shared.read_idx shape.read_in shape.small))
        ∙ sym (append_assoc s.popped (v ∷ []) _);
    filled =
        carry_filled d n s.shared (release d n s.shared) (suc len) len behind (suc behind)
          (omega arith) refl refl s.filled g;
    taken = tt;
  }

  Step-IsValid : (s t : State A) → Step d n s t → IsValid s → IsValid t
  Step-IsValid _ _ (fills s v q e f) i = fills-IsValid s v q e f i
  Step-IsValid _ _ (refuses s v q e f) i = refuses-IsValid s v q e f i
  Step-IsValid _ _ (publishes s v e) i = publishes-IsValid s v e i
  Step-IsValid _ _ (takes s v q e f) i = takes-IsValid s v q f i
  Step-IsValid _ _ (finds_none s q e f) i = finds_none-IsValid s q e f i
  Step-IsValid _ _ (releases s v e) i =
      releases_at s v i.len i.behind i.ahead i.shape i.history i.filled
        (subst (λ w. Taken d n w s.shared i.ahead) e i.taken)

  Reaches-IsValid : (s t : State A) → Reaches d n s t → IsValid s → IsValid t
  Reaches-IsValid _ _ (here s) i = i
  Reaches-IsValid _ _ (then s t u r st) i = Step-IsValid t u st (Reaches-IsValid s t r i)

  start-IsValid : (cells : List A) → length cells ≡ n → 0 < n → n ≤ 2 ^ 63 → IsValid (start cells)
  start-IsValid cells e pos small = record {
    len = 0;
    behind = 0;
    ahead = 0;
    shape = record {
      small = small;
      storage = e;
      read_in = pos;
      write_at_end = sym (mod-eq_of_lt {n = 0} {m = n} pos);
      fits = pos;
      cached_read_in = pos;
      cached_read = sym (mod-eq_of_lt {n = 0} {m = n} pos);
      ahead_in = omega arith;
      cached_write = sym (mod-eq_of_lt {n = 0} {m = n} pos);
    };
    history = refl;
    filled = tt;
    taken = tt;
  }

-- Two threads on a fresh queue of n cells, in any interleaving of the parts of their calls: the values
-- of the finished pushes are those of the finished pops followed by fewer than n that wait, in order.
pub pushed-popped :
    {A : Type 0} (d : A) (n : ℕ) (cells : List A) (s : State A)
    → length cells ≡ n
    → 0 < n
    → n ≤ 2 ^ 63
    → Reaches d n (start cells) s
    → (rest : List A) × (s.pushed ≡ s.popped ++ rest) × (length rest < n)
pushed-popped d n cells s e pos small r =
    let i = Reaches-IsValid d n (start cells) s r (start-IsValid d n cells e pos small) in
    (
      waiting d n s.shared i.len,
      i.history,
      omega (arith, length-window d n s.shared.queue s.shared.read_idx i.len, i.shape.fits),
    )

module _ {A : Type 0} (d : A) (n : ℕ) where
  place-full :
      (v : A) (q q' : Queue A) (len ahead : ℕ) (x : Bool × Queue A)
      → Room d n q len ahead x
      → place d n v x ≡ (false, q')
      → suc len ≡ n
  place-full v q q' len ahead (true, q1) room f = clash true refl (ap (λ z. z.0) f)
  place-full v q q' len ahead (false, q1) (behind, cached, e, s, inl (has_room, lt)) f =
      clash false has_room refl
  place-full v q q' len ahead (false, q1) (behind, cached, e, s, inr (no_room, full)) f = full

  fetch-empty :
      (q q' : Queue A) (len behind ahead : ℕ) (x : Bool × Queue A)
      → Found d n q len behind ahead x
      → fetch d n x ≡ (none, q')
      → len ≡ 0
  fetch-empty q q' len behind ahead (true, q1) found f =
      clash true refl (ap (λ z. present d n z.0) f)
  fetch-empty q q' len behind ahead (false, q1) (ahead', cached, e, s, more, inl (has_value, pos))
        f =
      clash false has_value refl
  fetch-empty q q' len behind ahead (false, q1) (ahead', cached, e, s, more, inr (no_value, z)) f =
      z

  module _ (cells : List A) (s : State A) (e : length cells ≡ n) (pos : 0 < n) (small : n ≤ 2 ^ 63)
      (r : Reaches d n (start cells) s) where
    reached : IsValid d n s
    reached = Reaches-IsValid d n (start cells) s r (start-IsValid d n cells e pos small)

    -- In any reachable state, a push is refused only when the values that wait fill all cells but one.
    pub fill-full :
        (v : A) (q : Queue A)
        → fill d n v s.shared ≡ (false, q)
        → (rest : List A) × (s.pushed ≡ s.popped ++ rest) × (suc (length rest) ≡ n)
    unfolding fill
    fill-full v q f = (
      waiting d n s.shared reached.len,
      reached.history,
      ap suc (length-window d n s.shared.queue s.shared.read_idx reached.len)
          ∙ place-full v s.shared q reached.len reached.ahead (check_room d n s.shared)
              (check_room_lem d n s.shared reached.len reached.behind reached.ahead reached.shape)
              f,
    )

    -- In any reachable state, a pop finds nothing only when every finished push has been popped.
    pub take-empty : (q : Queue A) → take d n s.shared ≡ (none, q) → s.pushed ≡ s.popped
    unfolding take
    take-empty q f =
        reached.history
        ∙ ap (λ k. s.popped ++ waiting d n s.shared k)
            (fetch-empty s.shared q reached.len reached.behind reached.ahead
              (check_some d n s.shared)
              (check_some_lem d n s.shared reached.len reached.behind reached.ahead reached.shape)
              f)
        ∙ append-nil s.popped
