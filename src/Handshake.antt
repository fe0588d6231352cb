-- ===== src/Handshake.antt =====
-- src/Client/bittorrent_messages.hpp: the handshake written to and read from a byte ring.
pub mod Encode
pub mod Verdict
pub mod Wrap
pub mod Decode
pub mod RoundTrip
mod Tests
use bittorrent_application_l.Base.{
  ℕ, zero, suc, ◌+◌, ◌-◌, min, Bool, true, false, not, ◌&&◌, ltb, leb, ◌==◌, if◌then◌else◌, List,
  [], ◌∷◌, Option, none, some, length, take, drop, get_or, add_size, sub_size,
}
use mathlib.Core.Option
use bittorrent_application_l.RingBuffer.{
  Iovec, Prepare, RingBuffer, prepare_read, prepare_write, commit_read, commit_write,
  prepared_bytes, prepare-empty,
}
use bittorrent_application_l.Window.{write_at}
use bittorrent_application_l.RingBuffer.Regions.{region}

-- length::handshake
abbrev pub handshake_length : ℕ
handshake_length = 68

pub record EncodeResult : Type 0 where
  pub complete : Bool

pub record DecodeResult : Type 0 where
  pub complete : Bool
  pub valid : Bool

pub record FrameCursor : Type 0 where
  pub cursor : ℕ

-- frame_cursor::reset
unfoldable pub reset_cursor : FrameCursor → FrameCursor
reset_cursor f = record { cursor = 0 }

-- enum handshake_offset
pub data Offset : Type 0 where
  pstrlen pstr reserved info_hash peer_id : Offset

-- The iovecs that the loops over `prepared_iovecs` visit.
abbrev pub iovecs : Prepare → List Iovec
iovecs p = take p.prepared_iovecs (p.iovec1 ∷ p.iovec2 ∷ [])

-- memcpy to the base of an iovec
abbrev pub copy_to : Iovec → List ℕ → RingBuffer → RingBuffer
copy_to io bs r = elim io.iov_base [
  | none ↦ r
  | some base ↦ record r { buffer = write_at r.buffer base bs }
]

-- One round of the loop of `encode`: how much is copied, and the ring after it.
unfoldable pub io_length : ℕ → Iovec → ℕ
io_length cursor io = min (sub_size handshake_length cursor) io.iov_len

unfoldable pub encode_round : ℕ → List ℕ → ℕ → Iovec → RingBuffer → RingBuffer
unfolding io_length
encode_round n handshake cursor io r =
    commit_write n (copy_to io (take (io_length cursor io) (drop cursor handshake)) r)
      (io_length cursor io)

unfoldable pub encode_loop :
    ℕ → List ℕ → List Iovec → ℕ → RingBuffer → EncodeResult × ℕ × RingBuffer
encode_loop n handshake [] cursor r = (record { complete = false }, cursor, r)
encode_loop n handshake (io ∷ rest) cursor r =
    let cursor' = add_size cursor (io_length cursor io) in
    let r' = encode_round n handshake cursor io r in
    let later = encode_loop n handshake rest cursor' r' in
    if io.iov_len == 0
    then (record { complete = false }, cursor, r)
    else if cursor' == handshake_length
    then (record { complete = true }, cursor', r')
    else later

unfoldable pub encode :
    ℕ → List ℕ → RingBuffer → FrameCursor → EncodeResult × FrameCursor × RingBuffer
unfolding prepare-empty
encode n handshake r frame =
    if leb handshake_length frame.cursor
    then (record { complete = true }, frame, r)
    else if prepare-empty (prepare_write n r)
    then (record { complete = false }, frame, r)
    else let (resolve, cursor', r') =
        encode_loop n handshake (iovecs (prepare_write n r)) frame.cursor r in
      (resolve, record { cursor = cursor' }, r')

-- std::ranges::equal
abbrev pub equal : List ℕ → List ℕ → Bool
equal [] [] = true
equal [] (y ∷ ys) = false
equal (x ∷ xs) [] = false
equal (x ∷ xs) (y ∷ ys) = x == y && equal xs ys

-- The variables that the loop of `decode` changes: the result's flag, the second iovec, and the
-- caller's peer id.
pub record Decoding : Type 0 where
  pub valid : Bool
  pub second : Iovec
  pub peer : List ℕ

-- `continue` with a new range, or `break`.
pub data Flow : Type 0 where
  continue : Offset → Flow
  break : Flow

-- wraparound_steal: the stolen bytes, and the shortened iovec.
unfoldable pub wraparound_steal : List ℕ → Iovec → ℕ → List ℕ × Iovec
wraparound_steal buf io size = (
  region buf (record { iov_base = io.iov_base; iov_len = size }),
  record {
    iov_base = Option.map (λ base. base + size) io.iov_base;
    iov_len = sub_size io.iov_len size;
  },
)

module _ (buf info_hash_seq : List ℕ) where
  unfoldable pub read_peer_id : List ℕ → Decoding → Flow × Decoding
  unfolding wraparound_steal
  read_peer_id view d =
      let (remaining, second') = wraparound_steal buf d.second (20 - length view) in
      if ltb (length view) 20
      then (let peer' = write_at (write_at d.peer 0 view) (length view) remaining in
          (break, record d { second = second'; peer = peer' }))
      else (break, record d { peer = write_at d.peer 0 (take 20 view) })

  unfoldable pub read_info_hash : List ℕ → Decoding → Flow × Decoding
  unfolding wraparound_steal
  read_info_hash view d =
      let (remaining, second') = wraparound_steal buf d.second (20 - length view) in
      if ltb (length view) 20
      then (let same =
            equal (take (length view) info_hash_seq) view
            && equal (drop (length view) info_hash_seq) remaining in
          (if same then continue peer_id else break, record d { second = second'; valid = same }))
      else let same = equal info_hash_seq (take 20 view) in
        let d' = record d { valid = same } in
        if same then read_peer_id (drop 20 view) d' else (break, d')

  unfoldable pub read_reserved : List ℕ → Decoding → Flow × Decoding
  unfolding wraparound_steal
  read_reserved view d =
      let (_, second') = wraparound_steal buf d.second (8 - length view) in
      if ltb (length view) 8
      then ((continue info_hash, record d { second = second'; valid = true }))
      else read_info_hash (drop 8 view) (record d { valid = true })

  unfoldable pub read_pstr : List ℕ → Decoding → Flow × Decoding
  unfolding wraparound_steal
  read_pstr view d =
      let (_, second') = wraparound_steal buf d.second (19 - length view) in
      if ltb (length view) 19
      then ((continue reserved, record d { second = second'; valid = true }))
      else read_reserved (drop 19 view) (record d { valid = true })

  unfoldable pub read_pstrlen : List ℕ → Decoding → Flow × Decoding
  read_pstrlen view d =
      if ltb (length view) 1
      then (continue pstrlen, d)
      else let first = get_or view 0 0 == 0x13 in
        let d' = record d { valid = first } in
        if first then read_pstr (drop 1 view) d' else (break, d')

  -- The body of the loop: the tests on `range` fall through from the one that holds.
  unfoldable pub decode_round : Offset → List ℕ → Decoding → Flow × Decoding
  decode_round pstrlen view d = read_pstrlen view d
  decode_round pstr view d = read_pstr view d
  decode_round reserved view d = read_reserved view d
  decode_round info_hash view d = read_info_hash view d
  decode_round peer_id view d = read_peer_id view d

  -- The second round reads the second iovec as the first round has left it.
  unfoldable pub second_round : ℕ → Flow × Decoding → Decoding
  second_round count (break, d) = d
  second_round count (continue range, d) =
      if ltb 1 count then (decode_round range (region buf d.second) d).1 else d

unfoldable pub decode : RingBuffer → List ℕ → List ℕ → DecodeResult × List ℕ × RingBuffer
unfolding prepared_bytes
decode r info_hash_seq peer_id_ref =
    let p = prepare_read handshake_length r in
    let d : Decoding = record { valid = false; second = p.iovec2; peer = peer_id_ref } in
    let d' =
      second_round r.buffer info_hash_seq p.prepared_iovecs
        (decode_round r.buffer info_hash_seq pstrlen (region r.buffer p.iovec1) d) in
    if ltb (prepared_bytes p) handshake_length
    then (record { complete = false; valid = false }, peer_id_ref, r)
    else (
      record { complete = true; valid = d'.valid },
      d'.peer,
      commit_read handshake_length r handshake_length,
    )
