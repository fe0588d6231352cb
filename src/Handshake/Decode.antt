-- ===== src/Handshake/Decode.antt =====
-- `decode` judges the 68 bytes on the ring the same way wherever they wrap round its end.
use bittorrent_application_l.Base.{
  ℕ, ◌+◌, ◌-◌, ◌<◌, ◌≡◌, refl, sym, ap, ◌∙◌, inl, inr, Bool, true, false, ◌&&◌, List, [], ◌∷◌, ◌++◌,
  none, arith, length, take, drop, get_or, length-take, length-drop, append-nil, drop-drop,
  drop_of_le, if◌then◌else◌, ◌==◌, Bool-cases, lt→ltb, le→ltb_false,
}
use bittorrent_application_l.RingBuffer.{RingBuffer, prepare_read, prepare_t, prepared_bytes}
use bittorrent_application_l.RingBuffer.Fifo.{IsValid, contents, commit_read_lem, length-contents}
use bittorrent_application_l.RingBuffer.Regions.{region, prepare_read_cases, prepare_read_lem}
use bittorrent_application_l.Handshake.{
  DecodeResult, pstrlen, Decoding, Flow, continue, break, equal, read_pstr, read_pstrlen,
  decode_round, second_round, decode,
}
use bittorrent_application_l.Handshake.Verdict.{verdict, judge, pstr_full}
use bittorrent_application_l.Handshake.Wrap.{split_at, tail_of, IsTail, IsTail-drop, pstr_split}

-- The independent description, on the 68 bytes in order: the first byte is 19 and bytes 28 to 47
-- are the info hash. Bytes 1 to 27 are not looked at, though the protocol has its name in 1 to 19.
abbrev pub accepted : List ℕ → List ℕ → Bool
accepted hash bytes = get_or bytes 0 0 == 19 && equal hash (take 20 (drop 28 bytes))

abbrev judge_all : List ℕ → List ℕ → List ℕ → Bool × List ℕ
judge_all hash peer bytes =
    (accepted hash bytes, if accepted hash bytes then drop 48 bytes else peer)

judge_first :
    (hash peer bytes : List ℕ)
    → (get_or bytes 0 0 == 19) ≡ true
    → judge hash peer (drop 28 bytes) ≡ judge_all hash peer bytes
judge_first hash peer bytes e = rw (e, drop-drop 20 28 bytes)

module _ (buf hash : List ℕ) where
  second_round-break :
      (count : ℕ) (x : Flow × Decoding) → x.0 ≡ break → second_round buf hash count x ≡ x.1
  unfolding second_round
  second_round-break count (break, d) e = refl
  second_round-break count (continue range, d) e = cc

  -- The whole handshake in one piece.
  whole_lem :
      (view : List ℕ) (d : Decoding) (count : ℕ)
      → length view ≡ 68
      → length d.peer ≡ 20
      → verdict (second_round buf hash count (decode_round buf hash pstrlen view d))
        ≡ judge_all hash d.peer view
  unfolding decode_round read_pstrlen second_round
  whole_lem view d count e p =
      rw (le→ltb_false (length view) 1 (omega arith)) (elim (Bool-cases (get_or view 0 0 == 19)) [
        | inl first ↦
            let rest =
              pstr_full buf hash (drop 1 view) (record d { valid = true })
                (omega (arith, length-drop 1 view)) p in
            rw first (
              ap verdict (
                second_round-break count
                  (read_pstr buf hash (drop 1 view) (record d { valid = true })) rest.0)
              ∙ rest.1
              ∙ ap (judge hash d.peer) (drop-drop 27 1 view)
              ∙ judge_first hash d.peer view first
              ∙ rw first)
        | inr other ↦ rw (other, second_round)
      ])

  -- The whole handshake in two pieces.
  parts_lem :
      (view : List ℕ) (b len : ℕ) (peer : List ℕ)
      → 0 < length view
      → IsTail buf hash 68 view b len peer
      → verdict (
          second_round buf hash 2
            (decode_round buf hash pstrlen view (split_at buf hash false b len peer)))
        ≡ judge_all hash peer (view ++ tail_of buf hash b len)
  unfolding decode_round read_pstrlen second_round
  parts_lem [] b len peer pos t = absurd (omega arith)
  parts_lem (x ∷ view) b len peer pos t =
      rw (le→ltb_false (length (x ∷ view)) 1 (omega arith)) (elim (Bool-cases (x == 19)) [
        | inl first ↦ rw first (
            pstr_split buf hash view true b len peer
              (IsTail-drop buf hash 1 67 (x ∷ view) b len peer (omega arith) t)
            ∙ judge_first hash peer (x ∷ (view ++ tail_of buf hash b len)) first
            ∙ rw first)
        | inr other ↦ rw (other, second_round)
      ])

verdict_lem :
    (r : RingBuffer) (hash peer : List ℕ)
    → IsValid 68 r
    → r.readable ≡ 68
    → length peer ≡ 20
    → let p = prepare_read 68 r in
      let d : Decoding = record { valid = false; second = p.iovec2; peer = peer } in
      let first = decode_round r.buffer hash pstrlen (region r.buffer p.iovec1) d in
      verdict (second_round r.buffer hash p.prepared_iovecs first)
      ≡ judge_all hash peer (contents 68 r)
unfolding prepare_t
verdict_lem r hash peer v full e = elim (prepare_read_cases 68 r v) [
  | inl (none_left, q) ↦ absurd (omega arith)
  | inr (inl (pos, le, q)) ↦ rw q (
      whole_lem r.buffer hash (take r.readable (drop r.read r.buffer))
        (record { valid = false; second = record { iov_base = none; iov_len = 0 }; peer = peer }) 1
        (omega (
          arith,
          length-take r.readable (drop r.read r.buffer),
          length-drop r.read r.buffer,
          v.storage,
        ))
        e
      ∙ ap (judge_all hash peer) (
          sym (append-nil (take r.readable (drop r.read r.buffer)))
          ∙ (rw q at (prepare_read_lem 68 r v).0)))
  | inr (inr (over, pos, q)) ↦ rw q (
      parts_lem r.buffer hash (take (68 - r.read) (drop r.read r.buffer)) 0
        (r.read + r.readable - 68) peer
        (omega (
          arith,
          length-take (68 - r.read) (drop r.read r.buffer),
          length-drop r.read r.buffer,
          v.storage,
        ))
        (record {
          small = omega arith;
          there = omega (arith, length-take (r.read + r.readable - 68) r.buffer, v.storage);
          whole = omega (
            arith,
            length-take (68 - r.read) (drop r.read r.buffer),
            length-drop r.read r.buffer,
            v.storage,
          );
          peer_size = e;
        })
      ∙ ap (judge_all hash peer) (rw q at (prepare_read_lem 68 r v).0))
]

-- When 68 bytes wait in a valid ring, `decode` reports completion and takes them off; it finds them
-- valid exactly when the first is 19 and bytes 28 to 47 are the info hash, and in that case alone
-- stores bytes 48 to 67 as the peer id, wherever the bytes wrap round the end of the array. The bytes
-- of the protocol's name, 1 to 19, may be any.
pub decode_lem :
    (r : RingBuffer) (hash peer : List ℕ)
    → IsValid 68 r
    → r.readable ≡ 68
    → length peer ≡ 20
    → let bytes = contents 68 r in
      let (result, peer', r') = decode r hash peer in
      (result ≡ record { complete = true; valid = accepted hash bytes })
      × (peer' ≡ (if accepted hash bytes then drop 48 bytes else peer))
      × IsValid 68 r'
      × (contents 68 r' ≡ [])
unfolding decode
decode_lem r hash peer v full e =
    rw
      (le→ltb_false (prepared_bytes (prepare_read 68 r)) 68
        (omega (arith, (prepare_read_lem 68 r v).1)))
      (let found = verdict_lem r hash peer v full e in
        let taken = commit_read_lem 68 r 68 v (omega arith) in
        (
          ap (λ q. let res : DecodeResult = record { complete = true; valid = q.0 } in res) found,
          ap (λ q. q.1) found,
          taken.0,
          taken.1 ∙ drop_of_le 68 (contents 68 r) (omega (arith, length-contents 68 r)),
        ))

-- While fewer bytes wait in a valid ring, `decode` reports an incomplete handshake and changes nothing.
pub decode_waits :
    (r : RingBuffer) (hash peer : List ℕ)
    → IsValid 68 r
    → r.readable < 68
    → decode r hash peer ≡ (record { complete = false; valid = false }, peer, r)
unfolding decode
decode_waits r hash peer v short =
    rw (lt→ltb (prepared_bytes (prepare_read 68 r)) 68 (omega (arith, (prepare_read_lem 68 r v).1)))
