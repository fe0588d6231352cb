-- ===== src/OverwritableCache/Deque.antt =====
-- The cache as a sequence, oldest first, of at most N values.
use bittorrent_application_l.Base.{
  ℕ, suc, ◌+◌, ◌-◌, ◌%◌, ◌^◌, ◌≤◌, ◌<◌, ◌≡◌, ◌≢◌, refl, sym, ap, ap₂, ◌∙◌, ◌⊎◌, inl, inr, List, [],
  ◌∷◌, ◌++◌, none, some, arith, length, get_or, set, drop, drop_congr, lt→ltb, le→ltb_false,
  ==-true, ==-false, length-set, add_size, sub_size, ℕ_discrete, dec_lt, mod-eq_of_lt, mod-add-mod,
}
use native.Mathlib.Nat.{mod_self, mod-lt, add-mod_right, suc-mod}
use bittorrent_application_l.Window.{
  window, window_congr, drop-window, window-set_past, window_snoc, end_cases,
}
use bittorrent_application_l.OverwritableCache.{
  Cache, plus_mask, minus_mask, push, stale_pop, fresh_pop,
}

pub record IsValid {ℓ} {A : Type ℓ} (n : ℕ) (c : Cache A) : Type 0 where
  pub small : n ≤ 2 ^ 63
  pub storage : length c.cache ≡ n
  pub read_in : c.read < n
  pub size_in : c.size ≤ n
  pub write_at_end : c.write ≡ (c.read + c.size) % n

pub plus_mask_lem : (n i : ℕ) → i < n → n ≤ 2 ^ 63 → plus_mask n i ≡ suc i % n
unfolding plus_mask
plus_mask_lem n i h small = elim (ℕ_discrete (suc i) n) [
  | yes e ↦ rw (==-true (add_size i 1) n (omega arith)) (sym (mod_self n) ∙ ap (λ k. k % n) (sym e))
  | no ne ↦
      rw (==-false (add_size i 1) n (omega arith))
        (omega (arith, mod-eq_of_lt {n = suc i} {m = n} (omega arith)))
]

minus_mask_lem :
    (n h k w : ℕ)
    → n ≤ 2 ^ 63
    → h < n
    → k ≤ n
    → w ≡ (h + k) % n
    → k ≢ 0
    → minus_mask n w ≡ (h + sub_size k 1) % n
unfolding minus_mask
minus_mask_lem n h k w small hn kn e ne =
    ground (arith, end_cases n h k hn kn, end_cases n h (sub_size k 1) hn (omega arith))

module _ {ℓ} {A : Type ℓ} (d : A) (n : ℕ) where
  -- The values held, oldest first.
  abbrev pub contents : Cache A → List A
  contents c = window d n c.cache c.read c.size

  write_in : (c : Cache A) → IsValid n c → c.write < n
  write_in c v = omega arith

  -- Below the limit a push adds the value at the fresh end; at the limit it also drops the oldest.
  pub push_lem :
      (c : Cache A) (val : A)
      → IsValid n c
      → IsValid n (push d n c val)
        × (contents (push d n c val) ≡ drop (suc c.size - n) (contents c) ++ (val ∷ []))
  unfolding push
  push_lem c val v = elim (dec_lt c.size n) [
    | yes room ↦ rw (lt→ltb c.size n room) (
      record {
        small = v.small;
        storage = length-set c.cache c.write val ∙ v.storage;
        read_in = v.read_in;
        size_in = omega arith;
        write_at_end =
            plus_mask_lem n c.write (write_in c v) v.small
            ∙ ap (λ k. suc k % n) v.write_at_end
            ∙ sym (suc-mod (c.read + c.size) n)
            ∙ ap (λ k. k % n)
                (let q : suc (c.read + c.size) ≡ c.read + add_size c.size 1 = omega arith in q);
      },
      window_congr d n (set c.cache c.write val) c.read c.read (add_size c.size 1) (suc c.size) refl
            (omega arith)
          ∙ window-set_past d n c.cache c.read c.size c.write val (omega arith) v.read_in room
              v.write_at_end
          ∙ ap (λ xs. xs ++ (val ∷ []))
              (sym (drop_congr (suc c.size - n) 0 (contents c) (omega arith))),
    )
    | no full ↦
        let at_limit : c.size ≡ n = omega arith in
        rw (le→ltb_false c.size n (omega arith)) (overwritten c val v at_limit)
  ]
    where
      overwritten :
          (c : Cache A) (val : A)
          → IsValid n c
          → c.size ≡ n
          → let c' = record c {
            cache = set c.cache c.write val;
            write = plus_mask n c.write;
            read = plus_mask n c.read;
          } in
            IsValid n c' × (contents c' ≡ drop (suc c.size - n) (contents c) ++ (val ∷ []))
      overwritten c val v e = (
        record {
          small = v.small;
          storage = length-set c.cache c.write val ∙ v.storage;
          read_in = rw next (mod-lt (suc c.read) (omega arith));
          size_in = v.size_in;
          write_at_end =
              ap (plus_mask n) at_read
              ∙ next
              ∙ sym (mod-eq_of_lt {n = suc c.read % n} {m = n} (mod-lt (suc c.read) (omega arith)))
              ∙ sym (add-mod_right (suc c.read % n) n)
              ∙ ap₂ (λ a b. (a + b) % n) (sym next) (sym e);
        },
        ap₂ (window d n (set c.cache c.write val)) next
              (let q : c.size ≡ suc (n - 1) = omega arith in q)
            ∙ window-set_past d n c.cache (suc c.read % n) (n - 1) c.write val (omega arith)
                (mod-lt (suc c.read) (omega arith)) (omega arith) back
            ∙ ap (λ xs. xs ++ (val ∷ []))
                (sym (
                    drop-window d n c.cache c.read 1 c.size v.read_in (omega arith)
                    ∙ window_congr d n c.cache ((c.read + 1) % n) (suc c.read % n) (c.size - 1)
                        (n - 1) (ap (λ k. k % n) (omega arith)) (omega arith))
                  ∙ sym (drop_congr (suc c.size - n) 1 (contents c) (omega arith))),
      )
        where
          next : plus_mask n c.read ≡ suc c.read % n
          next = plus_mask_lem n c.read v.read_in v.small

          at_read : c.write ≡ c.read
          at_read =
              v.write_at_end
              ∙ ap (λ k. (c.read + k) % n) e
              ∙ add-mod_right c.read n
              ∙ mod-eq_of_lt v.read_in

          back : c.write ≡ (suc c.read % n + (n - 1)) % n
          back =
              at_read
              ∙ sym (mod-eq_of_lt v.read_in)
              ∙ sym (add-mod_right c.read n)
              ∙ ap (λ k. k % n) (let q : c.read + n ≡ suc c.read + (n - 1) = omega arith in q)
              ∙ sym (mod-add-mod (suc c.read) n (n - 1))

  -- A stale pop gives the oldest value and keeps the others; it fails on an empty cache only.
  pub stale_pop_lem :
      (c : Cache A)
      → IsValid n c
      → let (out, c') = stale_pop d n c in
        IsValid n c'
        × (((c.size ≡ 0) × (out ≡ none) × (c' ≡ c))
            ⊎ ((x : A) × (out ≡ some x) × (contents c ≡ x ∷ contents c')))
  unfolding stale_pop
  stale_pop_lem c v = elim (ℕ_discrete c.size 0) [
    | yes e ↦ rw (==-true c.size 0 e) (v, inl (e, refl, refl))
    | no ne ↦
        let next = plus_mask_lem n c.read v.read_in v.small in
        rw (==-false c.size 0 ne) (
          record {
            small = v.small;
            storage = v.storage;
            read_in = rw next (mod-lt (suc c.read) (omega arith));
            size_in = omega arith;
            write_at_end =
                v.write_at_end
                ∙ ap (λ k. k % n)
                    (let q : c.read + c.size ≡ suc c.read + sub_size c.size 1 = omega arith in q)
                ∙ sym (mod-add-mod (suc c.read) n (sub_size c.size 1))
                ∙ ap (λ k. (k + sub_size c.size 1) % n) (sym next);
          },
          inr (
            get_or c.cache c.read d,
            refl,
            window_congr d n c.cache c.read c.read c.size (suc (c.size - 1)) refl (omega arith)
                ∙ ap (◌∷◌ (get_or c.cache c.read d)) (
                    window_congr d n c.cache (suc c.read % n) (plus_mask n c.read) (c.size - 1)
                      (sub_size c.size 1) (sym next) (omega arith)),
          ),
        )
  ]

  -- A fresh pop gives the newest value and keeps the others; it fails on an empty cache only.
  pub fresh_pop_lem :
      (c : Cache A)
      → IsValid n c
      → let (out, c') = fresh_pop d n c in
        IsValid n c'
        × (((c.size ≡ 0) × (out ≡ none) × (c' ≡ c))
            ⊎ ((x : A) × (out ≡ some x) × (contents c ≡ contents c' ++ (x ∷ []))))
  unfolding fresh_pop
  fresh_pop_lem c v = elim (ℕ_discrete c.size 0) [
    | yes e ↦ rw (==-true c.size 0 e) (v, inl (e, refl, refl))
    | no ne ↦ rw (==-false c.size 0 ne) (
      record {
        small = v.small;
        storage = v.storage;
        read_in = v.read_in;
        size_in = omega arith;
        write_at_end = last ne;
      },
      inr (
        get_or c.cache (minus_mask n c.write) d,
        refl,
        window_congr d n c.cache c.read c.read c.size (suc (sub_size c.size 1)) refl (omega arith)
            ∙ window_snoc d n c.cache c.read (sub_size c.size 1) v.read_in
            ∙ ap
                (λ k. contents (record c { size = sub_size c.size 1 }) ++ (get_or c.cache k d ∷ []))
                (sym (last ne)),
      ),
    )
  ]
    where
      last : c.size ≢ 0 → minus_mask n c.write ≡ (c.read + sub_size c.size 1) % n
      last ne = minus_mask_lem n c.read c.size c.write v.small v.read_in v.size_in v.write_at_end ne
