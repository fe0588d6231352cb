-- ===== src/Handshake/RoundTrip.antt =====
-- A handshake written to an empty ring, and read back from it.
use bittorrent_application_l.Base.{
  ℕ, ◌-◌, ◌≡◌, refl, sym, ap, ◌∙◌, List, true, arith, length, take, drop, take_of_le, get_or, ◌==◌,
  ==_iff, min, if◌then◌else◌, [], ◌∷◌, ◌++◌, nil_of_length,
}
use bittorrent_application_l.RingBuffer.{RingBuffer}
use bittorrent_application_l.RingBuffer.Fifo.{IsValid, contents, length-contents}
use bittorrent_application_l.Handshake.{
  EncodeResult, DecodeResult, FrameCursor, encode, decode, equal,
}
use bittorrent_application_l.Handshake.Encode.{Wrote, encode-Wrote}
use bittorrent_application_l.Handshake.Decode.{accepted, decode_lem}

pub equal_self : (xs : List ℕ) → equal xs xs ≡ true
equal_self [] = refl
equal_self (x ∷ xs) = rw ((==_iff x x).1 refl) (equal_self xs)

-- A 68-byte handshake that starts with 19 is written to a valid empty ring in one call of `encode`,
-- and `decode`, told the info hash that stands at bytes 28 to 47 of it, finds it complete and valid,
-- stores its last 20 bytes as the peer id, and leaves the ring empty.
pub decode-encode :
    (handshake peer : List ℕ) (r : RingBuffer)
    → length handshake ≡ 68
    → get_or handshake 0 0 ≡ 19
    → IsValid 68 r
    → r.readable ≡ 0
    → length peer ≡ 20
    → let (written, frame, r') = encode 68 handshake r (record { cursor = 0 }) in
      let (result, peer', r'') = decode r' (take 20 (drop 28 handshake)) peer in
      (written.complete ≡ true)
      × (result ≡ record { complete = true; valid = true })
      × (peer' ≡ drop 48 handshake)
      × (contents 68 r'' ≡ [])
decode-encode handshake peer r whole first v fresh e = (
  done.complete ∙ ap (λ k. k == 68) cursor_end,
  read.0 ∙ ap (λ b. let res : DecodeResult = record { complete = true; valid = b } in res) fine,
  read.1 ∙ rw (fine, all_bytes),
  read.3,
)
  where
    out : EncodeResult × FrameCursor × RingBuffer
    out = encode 68 handshake r (record { cursor = 0 })

    done : Wrote 68 handshake whole r 0 (68 - r.readable) (out.0, out.1.cursor, out.2)
    done = encode-Wrote 68 handshake whole r (record { cursor = 0 }) v (omega arith)

    cursor_end : out.1.cursor ≡ 68
    cursor_end = omega (arith, done.moved)

    all_bytes : contents 68 out.2 ≡ handshake
    all_bytes =
        done.bytes
        ∙ ap (λ xs. xs ++ take (min 68 (68 - r.readable)) handshake)
            (nil_of_length (contents 68 r) (omega (arith, length-contents 68 r)))
        ∙ take_of_le (min 68 (68 - r.readable)) handshake (omega arith)

    hash : List ℕ
    hash = take 20 (drop 28 handshake)

    read :
        let bytes = contents 68 out.2 in
        let (result, peer', r'') = decode out.2 hash peer in
        (result ≡ record { complete = true; valid = accepted hash bytes })
        × (peer' ≡ (if accepted hash bytes then drop 48 bytes else peer))
        × IsValid 68 r''
        × (contents 68 r'' ≡ [])
    read =
        decode_lem out.2 hash peer done.valid
          (omega (arith, sym (length-contents 68 out.2), ap length all_bytes)) e

    fine : accepted hash (contents 68 out.2) ≡ true
    fine = rw (all_bytes, (==_iff (get_or handshake 0 0) 19).1 first) (equal_self hash)
