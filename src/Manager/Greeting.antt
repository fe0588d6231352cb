-- ===== src/Manager/Greeting.antt =====
-- The manager's own handshake, as a peer reads it.
use bittorrent_application_l.Base.{
  ℕ, ◌-◌, ◌≡◌, refl, sym, ap, ap₂, ◌∙◌, true, List, [], ◌∷◌, ◌++◌, arith, length, take, drop,
  replicate, if◌then◌else◌, length-append, drop-append_past, take-append_within, take_of_le,
  drop_congr,
}
use bittorrent_application_l.RingBuffer.{RingBuffer}
use bittorrent_application_l.RingBuffer.Fifo.{IsValid, contents, length-contents}
use bittorrent_application_l.Handshake.{DecodeResult, equal, decode}
use bittorrent_application_l.Handshake.Decode.{accepted, decode_lem}
use bittorrent_application_l.Manager.Callbacks.{compute_handshake, protocol_string}

abbrev pub before_hash : List ℕ
before_hash = 19 ∷ (protocol_string ++ replicate 8 0)

module _ (hash id : List ℕ) (h : length hash ≡ 20) (i : length id ≡ 20) where
  length-compute_handshake : length (compute_handshake hash id) ≡ 68
  unfolding compute_handshake
  length-compute_handshake = omega (arith, length-append hash id)

  from_hash : drop 28 (compute_handshake hash id) ≡ hash ++ id
  unfolding compute_handshake
  from_hash = refl

  hash_in : take 20 (drop 28 (compute_handshake hash id)) ≡ hash
  hash_in =
      ap (take 20) from_hash
      ∙ take-append_within 20 hash id (omega arith)
      ∙ take_of_le 20 hash (omega arith)

  id_in : drop 48 (compute_handshake hash id) ≡ id
  unfolding compute_handshake
  id_in =
      drop-append_past 20 hash id (omega arith) ∙ drop_congr (20 - length hash) 0 id (omega arith)

  verdict_in : (other : List ℕ) → accepted other (compute_handshake hash id) ≡ equal other hash
  unfolding compute_handshake
  verdict_in other = ap (equal other) hash_in

-- A peer that has the manager's handshake on its ring, for any 20-byte info hash and client id, reads
-- it as complete, finds it valid exactly when it looks for that info hash, stores the client id in
-- that case alone, and has an empty valid ring afterwards.
pub decode-compute_handshake :
    (hash id : List ℕ)
    → length hash ≡ 20
    → length id ≡ 20
    → (r : RingBuffer) (other peer : List ℕ) → IsValid 68 r
    → contents 68 r ≡ compute_handshake hash id
    → length peer ≡ 20
    → let (result, peer', r') = decode r other peer in
      (result ≡ record { complete = true; valid = equal other hash })
      × (peer' ≡ (if equal other hash then id else peer))
      × IsValid 68 r'
      × (contents 68 r' ≡ [])
decode-compute_handshake hash id h i r other peer v e p =
    let read =
      decode_lem r other peer v
        (sym (length-contents 68 r) ∙ ap length e ∙ length-compute_handshake hash id h i) p in
    let judged = ap (accepted other) e ∙ verdict_in hash id h i other in
    (
      read.0
          ∙ ap (λ b. let res : DecodeResult = record { complete = true; valid = b } in res) judged,
      read.1
          ∙ ap₂ (λ b xs. if b then drop 48 xs else peer) judged e
          ∙ ap (λ xs. if equal other hash then xs else peer) (id_in hash id h i),
      read.2,
      read.3,
    )
