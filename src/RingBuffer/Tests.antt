-- ===== src/RingBuffer/Tests.antt =====
-- Runs of the ring, and the theorems at concrete rings.
use bittorrent_application_l.Base.{◌≡◌, refl, [], ◌∷◌, ◌++◌, some, arith}
use bittorrent_application_l.RingBuffer.{
  RingBuffer, prepare_read, prepare_write, prepare_t, commit_read, commit_write, mask,
  prepared_bytes, reset,
}
use bittorrent_application_l.Window.{write_at}
use bittorrent_application_l.RingBuffer.Fifo.{
  IsValid, contents, commit_read_lem, commit_write_lem, reset-IsValid,
}
use bittorrent_application_l.RingBuffer.Regions.{
  region, scatter, prepare_read_lem, prepared_bytes-prepare_write, scatter-commit_write,
}

-- 7, 8 at the end of an array of four, then 9 at its start.
abbrev wrapped : RingBuffer
wrapped = record { read = 2; write = 1; readable = 3; buffer = 9 ∷ 0 ∷ 7 ∷ 8 ∷ [] }

-- Room for three bytes: two at the end of the array and one at its start.
abbrev split_room : RingBuffer
split_room = record { read = 1; write = 2; readable = 1; buffer = 0 ∷ 5 ∷ 0 ∷ 0 ∷ [] }

wrapped-IsValid : IsValid 4 wrapped
wrapped-IsValid = omega arith

split_room-IsValid : IsValid 4 split_room
split_room-IsValid = omega arith

contents-wrapped : contents 4 wrapped ≡ 7 ∷ 8 ∷ 9 ∷ []
contents-wrapped = refl

prepare_read-wrapped : prepare_read 4 wrapped ≡ prepare_t 2 (some 2) 2 (some 0) 1
unfolding prepare_read
prepare_read-wrapped = refl

mask_both : (mask 4 7 ≡ 3) × (mask 68 70 ≡ 2)
unfolding mask
mask_both = (refl, refl)

prepare_read_lem_example :
    let p = prepare_read 4 wrapped in
    (region wrapped.buffer p.iovec1 ++ region wrapped.buffer p.iovec2 ≡ 7 ∷ 8 ∷ 9 ∷ [])
    × (prepared_bytes p ≡ 3)
prepare_read_lem_example = prepare_read_lem 4 wrapped wrapped-IsValid

prepared_bytes-prepare_write_example : prepared_bytes (prepare_write 4 split_room) ≡ 3
prepared_bytes-prepare_write_example = prepared_bytes-prepare_write 4 split_room split_room-IsValid

commit_read_lem_example :
    IsValid 4 (commit_read 4 wrapped 2) × (contents 4 (commit_read 4 wrapped 2) ≡ 9 ∷ [])
commit_read_lem_example = commit_read_lem 4 wrapped 2 wrapped-IsValid (omega arith)

commit_write_lem_example :
    let r' =
      commit_write 4 (record split_room { buffer = write_at split_room.buffer 2 (6 ∷ 7 ∷ []) }) 2 in
    IsValid 4 r' × (contents 4 r' ≡ 5 ∷ 6 ∷ 7 ∷ [])
commit_write_lem_example =
    commit_write_lem 4 split_room (6 ∷ 7 ∷ []) split_room-IsValid (omega arith) (omega arith)

scatter-commit_write_example :
    let p = prepare_write 4 split_room in
    let buf = scatter p (6 ∷ 7 ∷ 8 ∷ []) split_room.buffer in
    let r' = commit_write 4 (record split_room { buffer = buf }) 3 in
    IsValid 4 r' × (contents 4 r' ≡ 5 ∷ 6 ∷ 7 ∷ 8 ∷ [])
scatter-commit_write_example =
    scatter-commit_write 4 split_room split_room-IsValid (6 ∷ 7 ∷ 8 ∷ []) (omega arith)

reset-IsValid_example : IsValid 4 (reset wrapped) × (contents 4 (reset wrapped) ≡ [])
reset-IsValid_example = reset-IsValid 4 wrapped (omega arith) (omega arith) refl
