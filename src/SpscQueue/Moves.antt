-- ===== src/SpscQueue/Moves.antt =====
-- What one step of a thread does to the shape of the queue and to what the threads have at hand.
use bittorrent_application_l.Base.{
  ℕ, zero, suc, ◌+◌, ◌-◌, ◌%◌, ◌^◌, ◌≤◌, ◌<◌, ◌≡◌, ◌≢◌, refl, sym, ap, ap₂, subst, ◌∙◌, ◌⊎◌, inl,
  inr, Bool, true, false, List, [], ◌∷◌, ◌++◌, Option, none, some, arith, length, get_or, set,
  append_assoc, append-nil, length-set, get_or-set_self, get_or-set_ne, mod-eq_of_lt,
  take-append_within, take_of_le, replicate, length-replicate,
}
use bittorrent_application_l.Base
use native.Mathlib.Nat.{suc-mod}
use bittorrent_application_l.Window.{
  window, length-window, window_snoc, window-set_past, around, end_cases,
}
use bittorrent_application_l.SpscQueue.{Queue, next_index, place, publish, fetch, release}
use bittorrent_application_l.SpscQueue.Indices.{
  Shape, waiting, Filled, Taken, Room, Found, write_in, next_write, next_index_lem, clash,
}

module _ {A : Type 0} (d : A) (n : ℕ) where
  -- A write past the window does not show in it.
  window-set_outside :
      (buf : List A) (h k i : ℕ) (b : A)
      → n ≤ length buf
      → h < n
      → k < n
      → i ≡ (h + k) % n
      → window d n (set buf i b) h k ≡ window d n buf h k
  window-set_outside buf h k i b room hn kn e =
      sym (front (set buf i b))
      ∙ ap (Base.take k) (window-set_past d n buf h k i b room hn kn e)
      ∙ take-append_within k (window d n buf h k) (b ∷ [])
          (omega (arith, length-window d n buf h k))
      ∙ take_of_le k (window d n buf h k) (omega (arith, length-window d n buf h k))
    where
      front : (cells : List A) → Base.take k (window d n cells h (suc k)) ≡ window d n cells h k
      front cells =
          ap (Base.take k) (window_snoc d n cells h k hn)
          ∙ take-append_within k (window d n cells h k) _
              (omega (arith, length-window d n cells h k))
          ∙ take_of_le k (window d n cells h k) (omega (arith, length-window d n cells h k))

  apart : (h k w : ℕ) → h < n → 0 < k → k < n → w ≡ (h + k) % n → w ≢ h
  apart h k w hn pos kn e f = omega (arith, end_cases n h k hn (omega arith))

  -- The queue after the producer has stored `v` in the first free cell.
  pub record Stored (v : A) (q q' : Queue A) (len ahead : ℕ) : Type 0 where
    pub behind : ℕ
    pub shape : Shape d n q' len behind ahead
    pub same : waiting d n q' len ≡ waiting d n q len
    pub filled : Filled d n (some v) q' len behind
    pub taken : (w : Option A) → Taken d n w q ahead → Taken d n w q' ahead

  stored :
      (v : A) (q : Queue A) (len behind ahead : ℕ)
      → Shape d n q len behind ahead
      → behind + suc len < n
      → Stored v q (record q { queue = set q.queue q.write_idx v }) len ahead
  stored v q len behind ahead s room = record {
    behind = behind;
    shape = record {
      small = s.small;
      storage = length-set q.queue q.write_idx v ∙ s.storage;
      read_in = s.read_in;
      write_at_end = s.write_at_end;
      fits = s.fits;
      cached_read_in = s.cached_read_in;
      cached_read = s.cached_read;
      ahead_in = s.ahead_in;
      cached_write = s.cached_write;
    };
    same =
        window-set_outside q.queue q.read_idx len q.write_idx v (omega (arith, s.storage)) s.read_in
          (omega arith) s.write_at_end;
    filled = (
      room,
      get_or-set_self q.queue q.write_idx v d
          (omega (arith, s.storage, write_in d n q len behind ahead s)),
    );
    taken = untouched;
  }
    where
      untouched :
          (w : Option A)
          → Taken d n w q ahead
          → Taken d n w (record q { queue = set q.queue q.write_idx v }) ahead
      untouched none t = tt
      untouched (some w) t = (
        t.0,
        get_or-set_ne q.queue q.write_idx q.read_idx v d (
              apart q.read_idx len q.write_idx s.read_in (omega (arith, t.0, s.ahead_in))
                (omega (arith, s.fits)) s.write_at_end)
            ∙ t.1,
      )

  -- What each thread has at hand depends on the cells and its own index alone.
  pub carry_taken :
      (q q1 : Queue A) (ahead ahead' : ℕ)
      → ahead ≤ ahead'
      → q1.queue ≡ q.queue
      → q1.read_idx ≡ q.read_idx
      → (w : Option A) → Taken d n w q ahead
      → Taken d n w q1 ahead'
  carry_taken q q1 ahead ahead' le e f none t = tt
  carry_taken q q1 ahead ahead' le e f (some w) t =
      (omega (arith, t.0), ap₂ (λ cells i. get_or cells i d) e f ∙ t.1)

  pub carry_filled :
      (q q1 : Queue A) (len len' behind behind' : ℕ)
      → behind' + len' ≤ behind + len
      → q1.queue ≡ q.queue
      → q1.write_idx ≡ q.write_idx
      → (w : Option A) → Filled d n w q len behind
      → Filled d n w q1 len' behind'
  carry_filled q q1 len len' behind behind' le e f none t = tt
  carry_filled q q1 len len' behind behind' le e f (some w) t =
      (omega (arith, t.0), ap₂ (λ cells i. get_or cells i d) e f ∙ t.1)

  pub place-Stored :
      (v : A) (q q' : Queue A) (len ahead : ℕ) (x : Bool × Queue A)
      → Room d n q len ahead x
      → place d n v x ≡ (true, q')
      → Stored v q q' len ahead
  place-Stored v q q' len ahead (true, q1) (behind, cached, e, s, inl (yes_room, room)) f =
      subst (λ z. Stored v q z len ahead) (ap (λ z. z.1) f)
        (subst (λ z. Stored v q (record z { queue = set z.queue z.write_idx v }) len ahead) (sym e)
          (let st = stored v (record q { cached_read_idx = cached }) len behind ahead s room in
            record {
              behind = st.behind;
              shape = st.shape;
              same = st.same;
              filled = st.filled;
              taken = λ w t. st.taken w (
                  carry_taken q (record q { cached_read_idx = cached }) ahead ahead (omega arith)
                    refl refl w t);
            }))
  place-Stored v q q' len ahead (true, q1) (behind, cached, e, s, inr (no_room, full)) f =
      clash true refl no_room
  place-Stored v q q' len ahead (false, q1) room f = clash false (ap (λ z. z.0) f) refl

  -- The queue after a refused push or an empty pop, which only look up the other thread's index.
  pub record Looked (q q' : Queue A) (len ahead : ℕ) : Type 0 where
    pub behind : ℕ
    pub ahead' : ℕ
    pub shape : Shape d n q' len behind ahead'
    pub cells : q'.queue ≡ q.queue
    pub read : q'.read_idx ≡ q.read_idx
    pub write : q'.write_idx ≡ q.write_idx
    pub more : ahead ≤ ahead'

  pub place-Looked :
      (v : A) (q q' : Queue A) (len ahead : ℕ) (x : Bool × Queue A)
      → Room d n q len ahead x
      → place d n v x ≡ (false, q')
      → Looked q q' len ahead
  place-Looked v q q' len ahead (true, q1) room f = clash true refl (ap (λ z. z.0) f)
  place-Looked v q q' len ahead (false, q1) (behind, cached, e, s, room) f =
      subst (λ z. Looked q z len ahead) (sym e ∙ ap (λ z. z.1) f)
        (record {
          behind = behind;
          ahead' = ahead;
          shape = s;
          cells = refl;
          read = refl;
          write = refl;
          more = omega arith;
        })

  abbrev pub present : Option A → Bool
  present none = false
  present (some v) = true

  abbrev value : Option A → A
  value none = d
  value (some v) = v

  -- A read that finds something: the queue is looked at, and the value is the oldest that waits.
  pub fetch-Taken :
      (q q' : Queue A) (len behind ahead : ℕ) (v : A) (x : Bool × Queue A)
      → Found d n q len behind ahead x
      → fetch d n x ≡ (some v, q')
      → (ahead' : ℕ) × (cached : ℕ) × (q' ≡ record q { cached_write_idx = cached })
        × Shape d n q' len behind ahead'
        × Taken d n (some v) q' ahead'
  fetch-Taken q q' len behind ahead v (false, q1) found f =
      clash false (ap (λ z. present z.0) f) refl
  fetch-Taken q q' len behind ahead v (true, q1) (ahead', cached, e, s, more, inr (no_value, z)) f =
      clash true refl no_value
  fetch-Taken q q' len behind ahead v (true, q1) (ahead', cached, e, s, more, inl (yes_value, pos))
        f =
      let here : q' ≡ record q { cached_write_idx = cached } = sym (ap (λ z. z.1) f) ∙ e in
      (
        ahead',
        cached,
        here,
        subst (λ z. Shape d n z len behind ahead') (sym here) s,
        (pos, ap (λ z. get_or z.1.queue z.1.read_idx d) (sym f) ∙ ap (λ z. value z.0) f),
      )

  pub fetch-none :
      (q q' : Queue A) (len behind ahead : ℕ) (x : Bool × Queue A)
      → Found d n q len behind ahead x
      → fetch d n x ≡ (none, q')
      → (ahead' : ℕ) × (cached : ℕ) × (q' ≡ record q { cached_write_idx = cached })
        × Shape d n q' len behind ahead'
  fetch-none q q' len behind ahead (true, q1) found f = clash true refl (ap (λ z. present z.0) f)
  fetch-none q q' len behind ahead (false, q1) (ahead', cached, e, s, more, rest) f =
      let here : q' ≡ record q { cached_write_idx = cached } = sym (ap (λ z. z.1) f) ∙ e in
      (ahead', cached, here, subst (λ z. Shape d n z len behind ahead') (sym here) s)

  pub publish-waiting :
      (q : Queue A) (len behind ahead : ℕ) (v : A)
      → Shape d n q len behind ahead
      → get_or q.queue q.write_idx d ≡ v
      → waiting d n q (suc len) ≡ waiting d n q len ++ (v ∷ [])
  publish-waiting q len behind ahead v s e =
      window_snoc d n q.queue q.read_idx len s.read_in
      ∙ ap (λ i. waiting d n q len ++ (get_or q.queue i d ∷ [])) (sym s.write_at_end)
      ∙ ap (λ x. waiting d n q len ++ (x ∷ [])) e

  pub publish-Shape :
      (q : Queue A) (len behind ahead : ℕ)
      → Shape d n q len behind ahead
      → behind + suc len < n
      → Shape d n (publish d n q) (suc len) behind ahead
  unfolding publish
  publish-Shape q len behind ahead s room = record {
    small = s.small;
    storage = s.storage;
    read_in = s.read_in;
    write_at_end = next_write d n q len behind ahead s;
    fits = room;
    cached_read_in = s.cached_read_in;
    cached_read = s.cached_read;
    ahead_in = omega (arith, s.ahead_in);
    cached_write = s.cached_write;
  }

  next_read :
      (q : Queue A) (len behind ahead : ℕ)
      → Shape d n q len behind ahead
      → next_index n q.read_idx ≡ suc q.read_idx % n
  next_read q len behind ahead s = next_index_lem n q.read_idx s.read_in s.small

  pub release-Shape :
      (q : Queue A) (len behind ahead : ℕ)
      → Shape d n q (suc len) behind (suc ahead)
      → Shape d n (release d n q) len (suc behind) ahead
  unfolding release
  release-Shape q len behind ahead s = record {
    small = s.small;
    storage = s.storage;
    read_in = omega (arith, s.read_in, next_read q (suc len) behind (suc ahead) s);
    write_at_end =
        s.write_at_end
        ∙ sym (around d n q.read_idx len)
        ∙ ap (λ i. (i + len) % n) (sym (next_read q (suc len) behind (suc ahead) s));
    fits = omega (arith, s.fits);
    cached_read_in = s.cached_read_in;
    cached_read =
        next_read q (suc len) behind (suc ahead) s
        ∙ ap (λ i. suc i % n) s.cached_read
        ∙ sym (suc-mod (q.cached_read_idx + behind) n)
        ∙ ap (λ k. k % n)
            (let e : suc (q.cached_read_idx + behind) ≡ q.cached_read_idx + suc behind =
                omega arith in
              e);
    ahead_in = omega (arith, s.ahead_in);
    cached_write =
        s.cached_write
        ∙ sym (around d n q.read_idx ahead)
        ∙ ap (λ i. (i + ahead) % n) (sym (next_read q (suc len) behind (suc ahead) s));
  }
