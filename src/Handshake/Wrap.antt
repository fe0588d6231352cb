-- ===== src/Handshake/Wrap.antt =====
-- What the rounds of `decode` find when the bytes go on in the second iovec.
use bittorrent_application_l.Base.{
  ℕ, ◌+◌, ◌-◌, ◌≤◌, ◌<◌, ◌^◌, ◌≡◌, ap, ◌∙◌, inl, inr, Bool, true, List, ◌++◌, some, arith, length,
  take, drop, dec_lt, length-drop, length-append, append-nil, drop-drop, take_of_le, nil_of_length,
  take-append_within, drop-append_within, take-append_past, drop-append_past, Bool-cases, lt→ltb,
  le→ltb_false,
}
use bittorrent_application_l.Window.{write_at, write_at_all, write_at-append}
use bittorrent_application_l.Handshake.{
  Decoding, equal, wraparound_steal, read_peer_id, read_info_hash, read_reserved, read_pstr,
  decode_round, second_round,
}
use bittorrent_application_l.Handshake.Verdict.{
  equal_parts, verdict, judge, steal_lem, peer_full, info_full, reserved_full,
}

module _ (buf hash : List ℕ) where
  -- The loop's variables when the second iovec holds `len` bytes from offset `b`.
  abbrev pub split_at : Bool → ℕ → ℕ → List ℕ → Decoding
  split_at valid b len peer = record {
    valid = valid;
    second = record { iov_base = some b; iov_len = len };
    peer = peer;
  }

  abbrev pub tail_of : ℕ → ℕ → List ℕ
  tail_of b len = take len (drop b buf)

  -- `len` bytes there are, and together with the view they are the last `k` of the handshake.
  pub record IsTail (k : ℕ) (view : List ℕ) (b len : ℕ) (peer : List ℕ) : Type 0 where
    pub small : len < 2 ^ 64
    pub there : length (tail_of b len) ≡ len
    pub whole : length view + len ≡ k
    pub peer_size : length peer ≡ 20

  -- Whatever falls through moves the view on and leaves the rest.
  pub IsTail-drop :
      (j k : ℕ) (view : List ℕ) (b len : ℕ) (peer : List ℕ)
      → j ≤ length view
      → IsTail (k + j) view b len peer
      → IsTail k (drop j view) b len peer
  IsTail-drop j k view b len peer h t = record {
    small = t.small;
    there = t.there;
    whole = omega (arith, length-drop j view);
    peer_size = t.peer_size;
  }

  peer_split :
      (view : List ℕ) (valid : Bool) (b len : ℕ) (peer : List ℕ)
      → IsTail 20 view b len peer
      → verdict (second_round buf hash 2 (read_peer_id buf hash view (split_at valid b len peer)))
        ≡ (valid, view ++ tail_of b len)
  unfolding read_peer_id second_round
  peer_split view valid b len peer t = elim (dec_lt (length view) 20) [
    | yes short ↦
        rw
          (
            lt→ltb (length view) 20 short,
            (steal_lem buf hash b len (20 - length view) (omega arith) t.small).0,
            take_of_le (20 - length view) (tail_of b len) (omega (arith, t.there)),
          )
          (ap (λ xs. (valid, xs))
            (ap (λ k. write_at (write_at peer 0 view) k (tail_of b len))
                (let q : length view ≡ 0 + length view = omega arith in q)
              ∙ write_at-append peer 0 view (tail_of b len)
              ∙ write_at_all peer (view ++ tail_of b len)
                  (omega (arith, length-append view (tail_of b len), t.there, t.peer_size))))
    | no full ↦ rw (
      le→ltb_false (length view) 20 (omega arith),
      take_of_le 20 view (omega arith),
      write_at_all peer view (omega (arith, t.peer_size)),
      nil_of_length (tail_of b len) (omega (arith, t.there)),
      append-nil,
    )
  ]

  info_split :
      (view : List ℕ) (valid : Bool) (b len : ℕ) (peer : List ℕ)
      → IsTail 40 view b len peer
      → verdict (second_round buf hash 2 (read_info_hash buf hash view (split_at valid b len peer)))
        ≡ judge hash peer (view ++ tail_of b len)
  unfolding read_info_hash second_round decode_round
  info_split view valid b len peer t = elim (dec_lt (length view) 20) [
    | yes short ↦
        rw
          (
            lt→ltb (length view) 20 short,
            (steal_lem buf hash b len need (omega arith) t.small).0,
            equal_parts hash view (take need (tail_of b len)),
            take-append_past 20 view (tail_of b len) (omega arith),
            drop-append_past 20 view (tail_of b len) (omega arith),
          )
          (elim (Bool-cases (equal hash (view ++ take need (tail_of b len)))) [
            | inl same ↦ rw (
              same,
              second_round,
              decode_round,
              (steal_lem buf hash b len need (omega arith) t.small).1,
              peer_full buf hash (drop need (tail_of b len)) left
                  (omega (arith, length-drop need (tail_of b len), t.there)) t.peer_size,
            )
            | inr other ↦ rw (other, second_round)
          ])
    | no full ↦
        rw
          (
            le→ltb_false (length view) 20 (omega arith),
            take-append_within 20 view (tail_of b len) (omega arith),
            drop-append_within 20 view (tail_of b len) (omega arith),
          )
          (elim (Bool-cases (equal hash (take 20 view))) [
            | inl same ↦ rw same (
                peer_split (drop 20 view) true b len peer
                  (IsTail-drop 20 20 view b len peer (omega arith) t))
            | inr other ↦ rw (other, second_round)
          ])
  ]
    where
      need : ℕ
      need = 20 - length view

      left : Decoding
      left = record {
        valid = true;
        second = (wraparound_steal buf (record { iov_base = some b; iov_len = len }) need).1;
        peer = peer;
      }

  pub reserved_split :
      (view : List ℕ) (valid : Bool) (b len : ℕ) (peer : List ℕ)
      → IsTail 48 view b len peer
      → verdict (second_round buf hash 2 (read_reserved buf hash view (split_at valid b len peer)))
        ≡ judge hash peer (drop 8 (view ++ tail_of b len))
  unfolding read_reserved second_round decode_round
  reserved_split view valid b len peer t = elim (dec_lt (length view) 8) [
    | yes short ↦
        let need : ℕ = 8 - length view in
        let left : Decoding = record {
          valid = true;
          second = (wraparound_steal buf (record { iov_base = some b; iov_len = len }) need).1;
          peer = peer;
        } in
        rw
          (
            lt→ltb (length view) 8 short,
            (steal_lem buf hash b len need (omega arith) t.small).1,
            drop-append_past 8 view (tail_of b len) (omega arith),
          )
          (info_full buf hash (drop need (tail_of b len)) left
            (omega (arith, length-drop need (tail_of b len), t.there)) t.peer_size).1
    | no full ↦
        rw
          (
            le→ltb_false (length view) 8 (omega arith),
            drop-append_within 8 view (tail_of b len) (omega arith),
          )
          (info_split (drop 8 view) true b len peer
            (IsTail-drop 8 40 view b len peer (omega arith) t))
  ]

  pub pstr_split :
      (view : List ℕ) (valid : Bool) (b len : ℕ) (peer : List ℕ)
      → IsTail 67 view b len peer
      → verdict (second_round buf hash 2 (read_pstr buf hash view (split_at valid b len peer)))
        ≡ judge hash peer (drop 27 (view ++ tail_of b len))
  unfolding read_pstr second_round decode_round
  pstr_split view valid b len peer t = elim (dec_lt (length view) 19) [
    | yes short ↦
        let need : ℕ = 19 - length view in
        let left : Decoding = record {
          valid = true;
          second = (wraparound_steal buf (record { iov_base = some b; iov_len = len }) need).1;
          peer = peer;
        } in
        rw
          (
            lt→ltb (length view) 19 short,
            (steal_lem buf hash b len need (omega arith) t.small).1,
            ← drop-drop 8 19 (view ++ tail_of b len),
            drop-append_past 19 view (tail_of b len) (omega arith),
          )
          (reserved_full buf hash (drop need (tail_of b len)) left
            (omega (arith, length-drop need (tail_of b len), t.there)) t.peer_size).1
    | no full ↦
        rw
          (
            le→ltb_false (length view) 19 (omega arith),
            ← drop-drop 8 19 (view ++ tail_of b len),
            drop-append_within 19 view (tail_of b len) (omega arith),
          )
          (reserved_split (drop 19 view) true b len peer
            (IsTail-drop 19 48 view b len peer (omega arith) t))
  ]
