-- ===== src/Handshake/Encode.antt =====
-- What `encode` puts on the ring: the handshake from the cursor on, as far as there is room.
use bittorrent_application_l.Base.{
  ℕ, zero, suc, ◌+◌, ◌-◌, ◌%◌, ◌≤◌, ◌<◌, min, ◌≡◌, refl, sym, ap, ap₂, ◌∙◌, inl, inr, Bool, true,
  false, List, [], ◌∷◌, ◌++◌, some, arith, length, take, drop, dec_lt, ℕ_discrete, add_size,
  sub_size, length-take, length-drop, append-nil, append_assoc, drop-drop, ◌==◌, take_congr,
  if◌then◌else◌, Bool-cases, ==-false, leb-true, leb-false, ==-true, ==_iff, ◌≢◌, take_add,
}
use native.Mathlib.Nat.{mod_self}
use bittorrent_application_l.RingBuffer.{
  Iovec, RingBuffer, commit_write, prepare_write, prepare_t, prepare-empty,
}
use bittorrent_application_l.Window.{write_at, length-write_at}
use bittorrent_application_l.RingBuffer.Fifo.{
  IsValid, contents, commit_write_lem, write_in, commit_write-eq, buffer-IsValid,
}
use bittorrent_application_l.RingBuffer.Regions.{prepare_write_cases}
use bittorrent_application_l.Handshake.{
  EncodeResult, FrameCursor, io_length, encode_round, encode_loop, encode, iovecs,
}

module _ (n : ℕ) (handshake : List ℕ) (whole : length handshake ≡ 68) where
  -- What a round over an iovec of `len` bytes copies.
  abbrev piece : ℕ → ℕ → List ℕ
  piece cursor len = take (min (68 - cursor) len) (drop cursor handshake)

  length-piece : (cursor len : ℕ) → cursor ≤ 68 → length (piece cursor len) ≡ min (68 - cursor) len
  length-piece cursor len c = omega (
    arith,
    whole,
    length-take (min (68 - cursor) len) (drop cursor handshake),
    length-drop cursor handshake,
  )

  encode_round-eq :
      (r : RingBuffer) (cursor base len : ℕ)
      → cursor ≤ 68
      → base ≡ r.write
      → encode_round n handshake cursor (record { iov_base = some base; iov_len = len }) r
        ≡ commit_write n
            (record r { buffer = write_at r.buffer r.write (piece cursor len) })
            (length (piece cursor len))
  unfolding encode_round io_length
  encode_round-eq r cursor base len c e =
      ap₂
        (λ b k.
          commit_write n
            (record r { buffer = write_at r.buffer b (take k (drop cursor handshake)) }) k)
        e (let q : min (sub_size 68 cursor) len ≡ min (68 - cursor) len = omega arith in q)
      ∙ ap (commit_write n (record r { buffer = write_at r.buffer r.write (piece cursor len) }))
          (sym (length-piece cursor len c))

  -- One round over an iovec that starts at the write position.
  round_lem :
      (r : RingBuffer) (cursor base len : ℕ)
      → IsValid n r
      → cursor ≤ 68
      → base ≡ r.write
      → r.write + len ≤ n
      → len ≤ n - r.readable
      → let io : Iovec = record { iov_base = some base; iov_len = len } in
        let r' = encode_round n handshake cursor io r in
        IsValid n r'
        × (contents n r' ≡ contents n r ++ piece cursor len)
        × (r'.readable ≡ r.readable + min (68 - cursor) len)
        × (r'.write ≡ (r.write + min (68 - cursor) len) % n)
  round_lem r cursor base len v c e fits room = rw (encode_round-eq r cursor base len c e) (
      let done =
        commit_write_lem n r (piece cursor len) v (omega (arith, size)) (omega (arith, size)) in
      (
        done.0,
        done.1,
        ap (λ s. s.readable) plain ∙ ap (◌+◌ r.readable) size,
        ap (λ s. s.write) plain ∙ ap (λ k. (r.write + k) % n) size,
      ))
    where
      size : length (piece cursor len) ≡ min (68 - cursor) len
      size = length-piece cursor len c

      copied : RingBuffer
      copied = record r { buffer = write_at r.buffer r.write (piece cursor len) }

      copied-IsValid : IsValid n copied
      copied-IsValid = buffer-IsValid n r _ v (length-write_at r.buffer r.write (piece cursor len))

      plain : commit_write n copied (length (piece cursor len)) ≡ record copied {
        write = (r.write + length (piece cursor len)) % n;
        readable = r.readable + length (piece cursor len);
      }
      plain =
          commit_write-eq n copied (length (piece cursor len)) copied-IsValid (omega (arith, size))

  -- What has been achieved by a call that starts at `cursor` with the ring `r` and `room` free bytes.
  pub record Wrote (r : RingBuffer) (cursor room : ℕ) (out : EncodeResult × ℕ × RingBuffer)
      : Type 0 where
    pub valid : IsValid n out.2
    pub bytes : contents n out.2 ≡ contents n r ++ piece cursor room
    pub moved : out.1 ≡ cursor + min (68 - cursor) room
    pub complete : out.0.complete ≡ (out.1 == 68)

  encode_loop-cons :
      (io : Iovec) (rest : List Iovec) (r : RingBuffer) (cursor : ℕ)
      → cursor < 68
      → 0 < io.iov_len
      → let cursor' = cursor + min (68 - cursor) io.iov_len in
        let r' = encode_round n handshake cursor io r in
        encode_loop n handshake (io ∷ rest) cursor r ≡ (
          if cursor' == 68
          then (record { complete = true }, cursor', r')
          else encode_loop n handshake rest cursor' r')
  unfolding encode_loop io_length
  encode_loop-cons io rest r cursor c pos = rw (==-false io.iov_len 0 (omega arith)) (
      ap
        (λ k.
          let r' = encode_round n handshake cursor io r in
          let stop : EncodeResult × ℕ × RingBuffer = (record { complete = true }, k, r') in
          if k == 68 then stop else encode_loop n handshake rest k r')
        (let q : add_size cursor (min (sub_size 68 cursor) io.iov_len)
              ≡ cursor + min (68 - cursor) io.iov_len =
            omega arith in
          q))

  -- A last round leaves no iovec to go on with.
  last_round :
      (r : RingBuffer) (cursor base len : ℕ)
      → IsValid n r
      → cursor < 68
      → base ≡ r.write
      → r.write + len ≤ n
      → len ≤ n - r.readable
      → Wrote r cursor len
          (encode_loop n handshake (record { iov_base = some base; iov_len = len } ∷ []) cursor r)
  unfolding encode_loop
  last_round r cursor base zero v c e fits room = record {
    valid = v;
    bytes =
        sym (append-nil (contents n r))
        ∙ ap (◌++◌ (contents n r))
            (sym (take_congr (min (68 - cursor) 0) 0 (drop cursor handshake) (omega arith)));
    moved = omega arith;
    complete = sym (==-false cursor 68 (omega arith));
  }
  last_round r cursor base (suc len) v c e fits room =
      rw
        (encode_loop-cons (record { iov_base = some base; iov_len = suc len }) [] r cursor c
          (omega arith))
        (elim (Bool-cases (cursor + min (68 - cursor) (suc len) == 68)) [
          | inl done ↦
              rw done
                (record { valid = copied.0; bytes = copied.1; moved = refl; complete = sym done })
          | inr more ↦
              rw more
                (record { valid = copied.0; bytes = copied.1; moved = refl; complete = sym more })
        ])
    where
      copied :
          let io : Iovec = record { iov_base = some base; iov_len = suc len } in
          let r' = encode_round n handshake cursor io r in
          IsValid n r'
          × (contents n r' ≡ contents n r ++ piece cursor (suc len))
          × (r'.readable ≡ r.readable + min (68 - cursor) (suc len))
          × (r'.write ≡ (r.write + min (68 - cursor) (suc len)) % n)
      copied = round_lem r cursor base (suc len) v (omega arith) e fits room

  -- A piece that fills one iovec and goes on in the next.
  piece_add :
      (cursor a b : ℕ)
      → cursor + a < 68
      → piece cursor a ++ piece (cursor + a) b ≡ piece cursor (a + b)
  piece_add cursor a b h =
      ap₂ (λ xs ys. xs ++ take (min (68 - (cursor + a)) b) ys)
        (take_congr (min (68 - cursor) a) a (drop cursor handshake) (omega arith))
        (sym (drop-drop a cursor handshake))
      ∙ sym (take_add a (min (68 - (cursor + a)) b) (drop cursor handshake))
      ∙ take_congr (a + min (68 - (cursor + a)) b) (min (68 - cursor) (a + b))
          (drop cursor handshake) (omega arith)

  -- The free space in two parts: to the array's end, and before the oldest byte.
  two_rounds :
      (r : RingBuffer) (cursor : ℕ)
      → IsValid n r
      → cursor < 68
      → r.readable < n
      → n - r.write + r.read ≡ n - r.readable
      → let io1 : Iovec = record { iov_base = some r.write; iov_len = n - r.write } in
        let io2 : Iovec = record { iov_base = some 0; iov_len = r.read } in
        Wrote r cursor (n - r.readable) (encode_loop n handshake (io1 ∷ io2 ∷ []) cursor r)
  two_rounds r cursor v c room e =
      rw (encode_loop-cons io1 (io2 ∷ []) r cursor c (omega (arith, write_in n r v)))
        (elim (Bool-cases (cursor + min (68 - cursor) (n - r.write) == 68)) [
          | inl done ↦ rw done (stop ((==_iff _ 68).0 done))
          | inr more ↦ rw more (go (ground arith))
        ])
    where
      io1 : Iovec
      io1 = record { iov_base = some r.write; iov_len = n - r.write }

      io2 : Iovec
      io2 = record { iov_base = some 0; iov_len = r.read }

      r1 : RingBuffer
      r1 = encode_round n handshake cursor io1 r

      first :
          IsValid n r1
          × (contents n r1 ≡ contents n r ++ piece cursor (n - r.write))
          × (r1.readable ≡ r.readable + min (68 - cursor) (n - r.write))
          × (r1.write ≡ (r.write + min (68 - cursor) (n - r.write)) % n)
      first =
          round_lem r cursor r.write (n - r.write) v (omega arith) refl
            (omega (arith, write_in n r v)) (omega arith)

      stop :
          cursor + min (68 - cursor) (n - r.write) ≡ 68
          → Wrote r cursor
              (n - r.readable)
              (record { complete = true }, cursor + min (68 - cursor) (n - r.write), r1)
      stop d = record {
        valid = first.0;
        bytes =
            first.1
            ∙ ap (◌++◌ (contents n r)) (
                take_congr (min (68 - cursor) (n - r.write)) (min (68 - cursor) (n - r.readable))
                  (drop cursor handshake) (omega arith));
        moved = omega arith;
        complete = sym (==-true _ 68 d);
      }

      go :
          cursor + min (68 - cursor) (n - r.write) ≢ 68
          → Wrote r cursor
              (n - r.readable)
              (encode_loop n handshake (io2 ∷ []) (cursor + min (68 - cursor) (n - r.write)) r1)
      go d = record {
        valid = later.valid;
        bytes =
            later.bytes
            ∙ ap (λ xs. xs ++ piece c1 r.read) first.1
            ∙ append_assoc (contents n r) (piece cursor (n - r.write)) (piece c1 r.read)
            ∙ ap (◌++◌ (contents n r)) joined;
        moved = omega (arith, later.moved);
        complete = later.complete;
      }
        where
          c1 : ℕ
          c1 = cursor + min (68 - cursor) (n - r.write)

          c1-eq : c1 ≡ cursor + (n - r.write)
          c1-eq = omega arith

          at_start : 0 ≡ r1.write
          at_start =
              sym (mod_self n)
              ∙ ap (λ k. k % n)
                  (let q : n ≡ r.write + min (68 - cursor) (n - r.write) =
                      omega (arith, write_in n r v) in
                    q)
              ∙ sym first.3

          later : Wrote r1 c1 r.read (encode_loop n handshake (io2 ∷ []) c1 r1)
          later =
              last_round r1 c1 0 r.read first.0 (omega arith) at_start (omega (arith, at_start))
                (omega (arith, first.2))

          joined : piece cursor (n - r.write) ++ piece c1 r.read ≡ piece cursor (n - r.readable)
          joined =
              ap (λ k. piece cursor (n - r.write) ++ piece k r.read) c1-eq
              ∙ piece_add cursor (n - r.write) r.read (omega arith)
              ∙ ap (piece cursor) e

  encode_loop-Wrote :
      (r : RingBuffer) (cursor : ℕ)
      → IsValid n r
      → cursor < 68
      → r.readable < n
      → Wrote r cursor
          (n - r.readable)
          (encode_loop n handshake (iovecs (prepare_write n r)) cursor r)
  unfolding prepare_t
  encode_loop-Wrote r cursor v c room = elim (prepare_write_cases n r v) [
    | inl (e, q) ↦ absurd (omega arith)
    | inr (inl (_, le, q)) ↦
        rw q (last_round r cursor r.write (n - r.readable) v c refl le (omega arith))
    | inr (inr (_, e, q)) ↦ rw q (two_rounds r cursor v c room e)
  ]

  prepare-empty_iff :
      (r : RingBuffer) → IsValid n r → prepare-empty (prepare_write n r) ≡ (r.readable == n)
  unfolding prepare-empty prepare_t
  prepare-empty_iff r v = elim (prepare_write_cases n r v) [
    | inl (e, q) ↦ rw q (sym (==-true r.readable n e))
    | inr (inl (l, _, q)) ↦ rw q (sym (==-false r.readable n (omega arith)))
    | inr (inr (l, _, q)) ↦ rw q (sym (==-false r.readable n (omega arith)))
  ]

  -- From a cursor within the handshake, `encode` appends to a valid ring the handshake's bytes
  -- from the cursor on, as many as there is room for, moves the cursor by that number, and reports
  -- completion exactly when the whole handshake has been written; the ring stays valid.
  pub encode-Wrote :
      (r : RingBuffer) (frame : FrameCursor)
      → IsValid n r
      → frame.cursor ≤ 68
      → let (resolve, frame', r') = encode n handshake r frame in
        Wrote r frame.cursor (n - r.readable) (resolve, frame'.cursor, r')
  unfolding encode
  encode-Wrote r frame v c = elim (dec_lt frame.cursor 68) [
    | no done ↦
        let at_end : frame.cursor ≡ 68 = omega arith in
        rw (leb-true 68 frame.cursor (omega arith))
          (unmoved true (omega arith) (sym (==-true frame.cursor 68 at_end)))
    | yes more ↦
        rw (leb-false 68 frame.cursor more, prepare-empty_iff r v)
          (elim (ℕ_discrete r.readable n) [
            | yes e ↦
                rw (==-true r.readable n e)
                  (unmoved false (omega arith) (sym (==-false frame.cursor 68 (omega arith))))
            | no ne ↦
                rw (==-false r.readable n ne)
                  (encode_loop-Wrote r frame.cursor v more (omega arith))
          ])
  ]
    where
      unmoved :
          (b : Bool)
          → min (68 - frame.cursor) (n - r.readable) ≡ 0
          → b ≡ (frame.cursor == 68)
          → Wrote r frame.cursor (n - r.readable) (record { complete = b }, frame.cursor, r)
      unmoved b none_left e = record {
        valid = v;
        bytes =
            sym (append-nil (contents n r))
            ∙ ap (λ k. contents n r ++ take k (drop frame.cursor handshake)) (sym none_left);
        moved = omega arith;
        complete = e;
      }
