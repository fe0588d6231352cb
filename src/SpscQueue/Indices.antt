-- ===== src/SpscQueue/Indices.antt =====
-- The indices of the queue, and what the two look-ups answer.
use bittorrent_application_l.Base.{
  ℕ, suc, ◌+◌, ◌%◌, ◌^◌, ◌≤◌, ◌<◌, ◌≡◌, refl, sym, ap, ◌∙◌, ◌⊎◌, inl, inr, Bool, true, false, ◌==◌,
  Bool-cases, List, Option, none, some, arith, length, get_or, mod-eq_of_lt, mod-add-mod, ==_iff,
  ==-true, ℕ_discrete,
}
use native.Mathlib.Nat.{suc-mod, add-mod_right}
use bittorrent_application_l.Window.{window, end_cases}
use bittorrent_application_l.OverwritableCache.{plus_mask}
use bittorrent_application_l.OverwritableCache.Deque.{plus_mask_lem}
use bittorrent_application_l.SpscQueue.{Queue, next_index, check_room, check_some}

pub next_index_lem : (n i : ℕ) → i < n → n ≤ 2 ^ 63 → next_index n i ≡ suc i % n
unfolding next_index plus_mask
next_index_lem n i h small = plus_mask_lem n i h small

pub clash : {B : Type 0} (b : Bool) → b ≡ true → b ≡ false → B
clash true e f = cc
clash false e f = cc

module _ {A : Type 0} (d : A) (n : ℕ) where
  -- `len` values wait; `behind` were released since the producer last looked, and the consumer knows
  -- of `ahead` of those that wait.
  pub record Shape (q : Queue A) (len behind ahead : ℕ) : Type 0 where
    pub small : n ≤ 2 ^ 63
    pub storage : length q.queue ≡ n
    pub read_in : q.read_idx < n
    pub write_at_end : q.write_idx ≡ (q.read_idx + len) % n
    pub fits : behind + len < n
    pub cached_read_in : q.cached_read_idx < n
    pub cached_read : q.read_idx ≡ (q.cached_read_idx + behind) % n
    pub ahead_in : ahead ≤ len
    pub cached_write : q.cached_write_idx ≡ (q.read_idx + ahead) % n

  abbrev pub waiting : Queue A → ℕ → List A
  waiting q len = window d n q.queue q.read_idx len

  abbrev pub Filled : Option A → Queue A → ℕ → ℕ → Type 0
  Filled none q len behind = Unit {0}
  Filled (some v) q len behind = (behind + suc len < n) × (get_or q.queue q.write_idx d ≡ v)

  abbrev pub Taken : Option A → Queue A → ℕ → Type 0
  Taken none q ahead = Unit {0}
  Taken (some v) q ahead = (0 < ahead) × (get_or q.queue q.read_idx d ≡ v)

  pub write_in : (q : Queue A) (len behind ahead : ℕ) → Shape q len behind ahead → q.write_idx < n
  write_in q len behind ahead s = omega arith

  pub next_write :
      (q : Queue A) (len behind ahead : ℕ)
      → Shape q len behind ahead
      → next_index n q.write_idx ≡ (q.read_idx + suc len) % n
  next_write q len behind ahead s =
      next_index_lem n q.write_idx (write_in q len behind ahead s) s.small
      ∙ ap (λ k. suc k % n) s.write_at_end
      ∙ sym (suc-mod (q.read_idx + len) n)
      ∙ ap (λ k. k % n) (let e : suc (q.read_idx + len) ≡ q.read_idx + suc len = omega arith in e)

  -- With the free cells used up since the producer's last look, the next index is its copy.
  next_write-full :
      (q : Queue A) (len behind ahead : ℕ)
      → Shape q len behind ahead
      → behind + suc len ≡ n
      → next_index n q.write_idx ≡ q.cached_read_idx
  next_write-full q len behind ahead s e =
      next_write q len behind ahead s
      ∙ ap (λ k. (k + suc len) % n) s.cached_read
      ∙ mod-add-mod (q.cached_read_idx + behind) n (suc len)
      ∙ ap (λ k. k % n)
          (let f : q.cached_read_idx + behind + suc len ≡ q.cached_read_idx + n = omega arith in f)
      ∙ add-mod_right q.cached_read_idx n
      ∙ mod-eq_of_lt {n = q.cached_read_idx} {m = n} s.cached_read_in

  round_trip : (h k : ℕ) → h < n → 0 < k → k ≤ n → (h + k) % n ≡ h → k ≡ n
  round_trip h k hn pos kn e = omega (arith, end_cases n h k hn kn)

  looked :
      (q : Queue A) (len behind ahead : ℕ)
      → Shape q len behind ahead
      → Shape (record q { cached_read_idx = q.read_idx }) len 0 ahead
  looked q len behind ahead s = record {
    small = s.small;
    storage = s.storage;
    read_in = s.read_in;
    write_at_end = s.write_at_end;
    fits = omega arith;
    cached_read_in = s.read_in;
    cached_read = omega (arith, mod-eq_of_lt {n = q.read_idx + 0} {m = n} (omega arith));
    ahead_in = s.ahead_in;
    cached_write = s.cached_write;
  }

  -- The look-up of the read index: what `check_room` answers, and the shape afterwards.
  abbrev pub Room : Queue A → ℕ → ℕ → Bool × Queue A → Type 0
  Room q len ahead (room, q') =
      (behind : ℕ) × (cached : ℕ) × (q' ≡ record q { cached_read_idx = cached })
      × Shape (record q { cached_read_idx = cached }) len behind ahead
      × (((room ≡ true) × (behind + suc len < n)) ⊎ ((room ≡ false) × (suc len ≡ n)))

  pub check_room_lem :
      (q : Queue A) (len behind ahead : ℕ)
      → Shape q len behind ahead
      → Room q len ahead (check_room d n q)
  unfolding check_room
  check_room_lem q len behind ahead s =
      elim (Bool-cases (next_index n q.write_idx == q.cached_read_idx)) [
        | inr other ↦
            rw (check_room, other) (behind, q.cached_read_idx, refl, s, inl (refl, room_left other))
        | inl same ↦
            rw (check_room, same)
              (elim (Bool-cases (next_index n q.write_idx == q.read_idx)) [
                | inl full ↦
                    rw full
                      (0, q.read_idx, refl, looked q len behind ahead s, inr (refl, no_room full))
                | inr free ↦
                    rw free
                      (0, q.read_idx, refl, looked q len behind ahead s, inl (refl, free_left free))
              ])
      ]
    where
      room_left : (next_index n q.write_idx == q.cached_read_idx) ≡ false → behind + suc len < n
      room_left other = elim (ℕ_discrete (behind + suc len) n) [
        | yes e ↦
            clash (next_index n q.write_idx == q.cached_read_idx)
              (==-true _ _ (next_write-full q len behind ahead s e)) other
        | no ne ↦ omega (arith, s.fits)
      ]

      free_left : (next_index n q.write_idx == q.read_idx) ≡ false → 0 + suc len < n
      free_left free = elim (ℕ_discrete (0 + suc len) n) [
        | yes e ↦
            clash (next_index n q.write_idx == q.read_idx)
              (==-true _ _ (next_write-full _ len 0 ahead (looked q len behind ahead s) e)) free
        | no ne ↦ omega (arith, s.fits)
      ]

      no_room : (next_index n q.write_idx == q.read_idx) ≡ true → suc len ≡ n
      no_room full =
          round_trip q.read_idx (suc len) s.read_in (omega arith) (omega (arith, s.fits)) (
            sym (next_write q len behind ahead s)
            ∙ (==_iff (next_index n q.write_idx) q.read_idx).0 full)

  abbrev pub Found : Queue A → ℕ → ℕ → ℕ → Bool × Queue A → Type 0
  Found q len behind ahead (found, q') =
      (ahead' : ℕ) × (cached : ℕ) × (q' ≡ record q { cached_write_idx = cached })
      × Shape (record q { cached_write_idx = cached }) len behind ahead'
      × (ahead ≤ ahead')
      × (((found ≡ true) × (0 < ahead')) ⊎ ((found ≡ false) × (len ≡ 0)))

  looked_ahead :
      (q : Queue A) (len behind ahead : ℕ)
      → Shape q len behind ahead
      → Shape (record q { cached_write_idx = q.write_idx }) len behind len
  looked_ahead q len behind ahead s = record {
    small = s.small;
    storage = s.storage;
    read_in = s.read_in;
    write_at_end = s.write_at_end;
    fits = s.fits;
    cached_read_in = s.cached_read_in;
    cached_read = s.cached_read;
    ahead_in = omega arith;
    cached_write = s.write_at_end;
  }

  none_ahead : (h k w : ℕ) → h < n → w ≡ (h + k) % n → k ≡ 0 → h ≡ w
  none_ahead h k w hn e z = omega (arith, mod-eq_of_lt {n = h + k} {m = n} (omega arith))

  same_place : (h k w : ℕ) → h < n → k < n → w ≡ (h + k) % n → h ≡ w → k ≡ 0
  same_place h k w hn kn e f = omega (arith, end_cases n h k hn (omega arith))

  pub check_some_lem :
      (q : Queue A) (len behind ahead : ℕ)
      → Shape q len behind ahead
      → Found q len behind ahead (check_some d n q)
  unfolding check_some
  check_some_lem q len behind ahead s = elim (Bool-cases (q.read_idx == q.cached_write_idx)) [
    | inr other ↦
        rw (check_some, other)
          (ahead, q.cached_write_idx, refl, s, omega arith, inl (refl, known other))
    | inl same ↦
        rw (check_some, same)
          (elim (Bool-cases (q.read_idx == q.write_idx)) [
            | inl nothing ↦ rw nothing (
              len,
              q.write_idx,
              refl,
              looked_ahead q len behind ahead s,
              s.ahead_in,
              inr (
                refl,
                same_place q.read_idx len q.write_idx s.read_in (omega (arith, s.fits))
                    s.write_at_end ((==_iff q.read_idx q.write_idx).0 nothing),
              ),
            )
            | inr something ↦ rw something (
              len,
              q.write_idx,
              refl,
              looked_ahead q len behind ahead s,
              s.ahead_in,
              inl (refl, positive len q.write_idx s.write_at_end something),
            )
          ])
  ]
    where
      positive : (k w : ℕ) → w ≡ (q.read_idx + k) % n → (q.read_idx == w) ≡ false → 0 < k
      positive k w e other = elim (ℕ_discrete k 0) [
        | yes z ↦
            clash (q.read_idx == w) (==-true q.read_idx w (none_ahead q.read_idx k w s.read_in e z))
              other
        | no nz ↦ omega arith
      ]

      known : (q.read_idx == q.cached_write_idx) ≡ false → 0 < ahead
      known other = positive ahead q.cached_write_idx s.cached_write other
