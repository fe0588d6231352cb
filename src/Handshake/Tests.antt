-- ===== src/Handshake/Tests.antt =====
-- A handshake on rings that it wraps round, and the theorems there.
use bittorrent_application_l.Base.{
  ℕ, zero, suc, ◌≡◌, refl, List, [], ◌∷◌, ◌++◌, true, arith, take, drop, replicate,
}
use bittorrent_application_l.RingBuffer.{RingBuffer}
use bittorrent_application_l.RingBuffer.Fifo.{IsValid, contents}
use bittorrent_application_l.Handshake.{encode, decode}
use bittorrent_application_l.Handshake.Encode.{Wrote, encode-Wrote}
use bittorrent_application_l.Handshake.Decode.{decode_lem}
use bittorrent_application_l.Handshake.RoundTrip.{decode-encode}

abbrev count_up : ℕ → ℕ → List ℕ
count_up zero from = []
count_up (suc n) from = from ∷ count_up n (suc from)

abbrev hash : List ℕ
hash = count_up 20 100

-- 19, noughts for the protocol's name and the reserved bytes, the info hash and a peer id.
abbrev message : List ℕ
message = 19 ∷ (replicate 27 0 ++ (hash ++ count_up 20 200))

abbrev no_id : List ℕ
no_id = replicate 20 0

-- Empty, with the write position 30 bytes before the end of the array.
abbrev empty_ring : RingBuffer
empty_ring = record { read = 38; write = 38; readable = 0; buffer = replicate 68 0 }

-- Full, with the info hash across the end of the array.
abbrev full_ring : RingBuffer
full_ring = record {
  read = 30;
  write = 30;
  readable = 68;
  buffer = drop 38 message ++ take 38 message;
}

empty_ring-IsValid : IsValid 68 empty_ring
empty_ring-IsValid = record {
  small = omega arith;
  storage = refl;
  read_in = omega arith;
  readable_in = omega arith;
  write_at_end = refl;
}

full_ring-IsValid : IsValid 68 full_ring
full_ring-IsValid = record {
  small = omega arith;
  storage = refl;
  read_in = omega arith;
  readable_in = omega arith;
  write_at_end = refl;
}

encode-Wrote_example :
    let (resolve, frame', r') = encode 68 message empty_ring (record { cursor = 8 }) in
    Wrote 68 message refl empty_ring 8 68 (resolve, frame'.cursor, r')
encode-Wrote_example =
    encode-Wrote 68 message refl empty_ring (record { cursor = 8 }) empty_ring-IsValid (omega arith)

decode_lem_example :
    let (result, peer', r') = decode full_ring hash no_id in
    (result ≡ record { complete = true; valid = true })
    × (peer' ≡ count_up 20 200)
    × IsValid 68 r'
    × (contents 68 r' ≡ [])
decode_lem_example = decode_lem full_ring hash no_id full_ring-IsValid refl refl

decode-encode_example :
    let (written, frame, r') = encode 68 message empty_ring (record { cursor = 0 }) in
    let (result, peer', r'') = decode r' hash no_id in
    (written.complete ≡ true)
    × (result ≡ record { complete = true; valid = true })
    × (peer' ≡ count_up 20 200)
    × (contents 68 r'' ≡ [])
decode-encode_example =
    decode-encode message no_id empty_ring refl refl empty_ring-IsValid refl refl
