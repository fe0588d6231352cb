-- ===== src/RingBuffer/Regions.antt =====
-- What the prepared iovecs are: the readable bytes in order, and the free space in order.
use bittorrent_application_l.Base.{
  ℕ, ◌+◌, ◌-◌, ◌≤◌, ◌<◌, ◌≡◌, refl, sym, ap, ◌∙◌, ◌⊎◌, List, [], ◌++◌, inl, inr, none, some, arith,
  length, take, drop, dec_lt, append-nil, length-drop, take_of_le, nil_of_length, ℕ_discrete,
}
use bittorrent_application_l.RingBuffer.{
  Iovec, Prepare, prepare_t, prepared_bytes, RingBuffer, prepare_read, prepare_write, commit_write,
  w_available,
}
use bittorrent_application_l.Window.{
  end_cases, write_at, window_congr, window_linear, window_wrapped,
}
use bittorrent_application_l.RingBuffer.Fifo.{IsValid, contents, write_in, commit_write_lem}
use bittorrent_application_l.RingBuffer.Filling.{wrapped_scatter}

-- The bytes that an iovec stands for.
abbrev pub region : List ℕ → Iovec → List ℕ
region buf v = elim v.iov_base [ none ↦ [] | some base ↦ take v.iov_len (drop base buf) ]

-- The effect of a vectored read on the array: `bs` fills the first iovec, then the second.
abbrev pub put : Iovec → List ℕ → List ℕ → List ℕ
put v bs buf = elim v.iov_base [ none ↦ buf | some base ↦ write_at buf base (take v.iov_len bs) ]

abbrev pub scatter : Prepare → List ℕ → List ℕ → List ℕ
scatter p bs buf = put p.iovec2 (drop p.iovec1.iov_len bs) (put p.iovec1 bs buf)

module _ (n : ℕ) (r : RingBuffer) (v : IsValid n r) where
  prepare_read-empty : r.readable ≡ 0 → prepare_read n r ≡ prepare_t 0 none 0 none 0
  unfolding prepare_read
  prepare_read-empty e = ground arith

  prepare_read-linear :
      0 < r.readable
      → (r.read + r.readable < n) ⊎ ((r.readable ≡ n) × (r.read ≡ 0))
      → prepare_read n r ≡ prepare_t 1 (some r.read) r.readable none 0
  unfolding prepare_read
  prepare_read-linear pos c =
      ground (arith, end_cases n r.read r.readable v.read_in v.readable_in, v.write_at_end)

  prepare_read-wrapped :
      0 < r.readable
      → n ≤ r.read + r.readable
      → 0 < r.read
      → prepare_read n r ≡ prepare_t 2 (some r.read) (n - r.read) (some 0) (r.read + r.readable - n)
  unfolding prepare_read
  prepare_read-wrapped pos over back =
      ground (arith, end_cases n r.read r.readable v.read_in v.readable_in, v.write_at_end)

  pub prepare_read_cases :
      ((r.readable ≡ 0) × (prepare_read n r ≡ prepare_t 0 none 0 none 0))
      ⊎ ((0 < r.readable)
          × (r.read + r.readable ≤ n)
          × (prepare_read n r ≡ prepare_t 1 (some r.read) r.readable none 0))
      ⊎ ((n ≤ r.read + r.readable)
          × (0 < r.readable)
          × (prepare_read n r
              ≡ prepare_t 2 (some r.read) (n - r.read) (some 0) (r.read + r.readable - n)))
  prepare_read_cases = elim (ℕ_discrete r.readable 0) [
    | yes e ↦ inl (e, prepare_read-empty e)
    | no ne ↦ elim (dec_lt (r.read + r.readable) n) [
      | yes p ↦ inr (inl (omega arith, omega arith, prepare_read-linear (omega arith) (inl p)))
      | no p ↦ elim (ℕ_discrete r.read 0) [
        | yes z ↦ inr (
            inl
              (omega arith, omega arith, prepare_read-linear (omega arith) (inr (omega arith, z))))
        | no s ↦ inr (
            inr (
              omega arith,
              omega arith,
              prepare_read-wrapped (omega arith) (omega arith) (omega arith),
            ))
      ]
    ]
  ]

  -- The iovecs of `prepare_read` are the readable bytes, in order.
  pub prepare_read_lem :
      let p = prepare_read n r in
      (region r.buffer p.iovec1 ++ region r.buffer p.iovec2 ≡ contents n r)
      × (prepared_bytes p ≡ r.readable)
  unfolding prepared_bytes prepare_t
  prepare_read_lem = elim prepare_read_cases [
    | inl (e, q) ↦
        rw q (sym (window_congr 0 n r.buffer r.read r.read r.readable 0 refl e), omega arith)
    | inr (inl (pos, le, q)) ↦ rw q (
      append-nil (take r.readable (drop r.read r.buffer))
          ∙ sym (window_linear 0 n r.buffer r.read r.readable v.storage le),
      omega arith,
    )
    | inr (inr (over, pos, q)) ↦ rw q (
      ap (λ xs. xs ++ take (r.read + r.readable - n) r.buffer)
            (take_of_le (n - r.read) (drop r.read r.buffer)
              (omega (arith, length-drop r.read r.buffer, v.storage)))
          ∙ sym (
              window_wrapped 0 n r.buffer r.read r.readable v.storage v.read_in v.readable_in over),
      omega arith,
    )
  ]

  prepare_write-full : r.readable ≡ n → prepare_write n r ≡ prepare_t 0 none 0 none 0
  unfolding prepare_write
  prepare_write-full e = ground arith

  prepare_write-linear :
      r.readable < n
      → (r.write < r.read) ⊎ ((r.readable ≡ 0) × (r.write ≡ 0))
      → prepare_write n r ≡ prepare_t 1 (some r.write) (n - r.readable) none 0
  unfolding prepare_write w_available
  prepare_write-linear room c = ground arith

  prepare_write-wrapped :
      r.readable < n
      → r.read ≤ r.write
      → 0 < r.write
      → prepare_write n r ≡ prepare_t 2 (some r.write) (n - r.write) (some 0) r.read
  unfolding prepare_write
  prepare_write-wrapped room c pos = ground (arith, write_in n r v)

  pub prepare_write_cases :
      ((r.readable ≡ n) × (prepare_write n r ≡ prepare_t 0 none 0 none 0))
      ⊎ ((r.readable < n)
          × (r.write + (n - r.readable) ≤ n)
          × (prepare_write n r ≡ prepare_t 1 (some r.write) (n - r.readable) none 0))
      ⊎ ((r.readable < n)
          × (n - r.write + r.read ≡ n - r.readable)
          × (prepare_write n r ≡ prepare_t 2 (some r.write) (n - r.write) (some 0) r.read))
  prepare_write_cases = elim (ℕ_discrete r.readable n) [
    | yes e ↦ inl (e, prepare_write-full e)
    | no ne ↦ elim (dec_lt r.write r.read) [
      | yes p ↦
          inr (inl (omega arith, ground (arith, ends), prepare_write-linear (omega arith) (inl p)))
      | no p ↦ elim (ℕ_discrete r.write 0) [
        | yes z ↦ inr (
            inl (
              omega arith,
              ground (arith, ends),
              prepare_write-linear (omega arith) (inr (ground (arith, ends), z)),
            ))
        | no s ↦ inr (
            inr (
              omega arith,
              ground (arith, ends),
              prepare_write-wrapped (omega arith) (omega arith) (omega arith),
            ))
      ]
    ]
  ]
    where
      ends :
          ((r.read + r.readable < n) × (r.write ≡ r.read + r.readable))
          ⊎ ((n ≤ r.read + r.readable) × (r.write ≡ r.read + r.readable - n))
      ends = ground (arith, end_cases n r.read r.readable v.read_in v.readable_in, v.write_at_end)

  -- The iovecs of `prepare_write` hold exactly the free bytes.
  pub prepared_bytes-prepare_write : prepared_bytes (prepare_write n r) ≡ n - r.readable
  unfolding prepared_bytes prepare_t
  prepared_bytes-prepare_write = elim prepare_write_cases [
    | inl (e, q) ↦ rw q (omega arith)
    | inr (inl (room, le, q)) ↦ rw q (omega arith)
    | inr (inr (room, le, q)) ↦ rw q (omega arith)
  ]

  -- A vectored read of at most what is free, committed, appends its bytes to the queue.
  pub scatter-commit_write :
      (bs : List ℕ)
      → length bs ≤ n - r.readable
      → let filled = record r { buffer = scatter (prepare_write n r) bs r.buffer } in
        let r' = commit_write n filled (length bs) in
        IsValid n r' × (contents n r' ≡ contents n r ++ bs)
  unfolding prepare_t
  scatter-commit_write bs h = elim prepare_write_cases [
    | inl (e, q) ↦
        let none_left : bs ≡ [] = nil_of_length bs (omega arith) in
        rw (q, none_left) (commit_write_lem n r [] v (omega arith) (omega (arith, write_in n r v)))
    | inr (inl (room, le, q)) ↦
        rw (q, take_of_le (n - r.readable) bs h) (commit_write_lem n r bs v h (omega arith))
    | inr (inr (room, le, q)) ↦ rw q (wrapped_scatter n r v bs h le)
  ]
