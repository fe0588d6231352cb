-- ===== src/Peer/Transfer.antt =====
-- What `send` and `recv` do to the bytes that wait in a peer's rings.
use bittorrent_application_l.Base.{
  ℕ, ◌-◌, ◌≤◌, ◌≡◌, refl, sym, ap, ◌∙◌, Bool, true, false, List, [], ◌∷◌, ◌++◌, some, length, take,
  arith, ◌==◌, ==-true, take-append-drop, append-nil,
}
use bittorrent_application_l.RingBuffer.{RingBuffer, prepare_read, empty, full, commit_read}
use bittorrent_application_l.RingBuffer.Fifo.{IsValid, contents, length-contents, commit_read_lem}
use bittorrent_application_l.RingBuffer.Regions.{region, prepare_read_lem, scatter-commit_write}
use bittorrent_application_l.Peer.Socket.{
  Errno, eagain, peer_shutdown, SysResult, returned, failed, ReadResult, received, read_failed,
  retry, retry_read, Tcp, sent, send, taken, recv, handle_send_perrno, handle_recv_perrno,
}

-- How many bytes the system takes, and which.
abbrev pub count : SysResult → ℕ
count (returned k) = k
count (failed e) = 0

abbrev pub wire : ℕ → RingBuffer → SysResult → List ℕ
wire n r a =
    let p = prepare_read n r in
    take (count a) (region r.buffer p.iovec1 ++ region r.buffer p.iovec2)

-- The bytes that a read delivers.
abbrev pub delivered : ReadResult → List ℕ
delivered (received bs) = bs
delivered (read_failed e) = []

abbrev pub blocks : Errno → Bool
blocks eagain = true
blocks e = false

-- The connection goes on after a send unless it failed with more than a full socket.
abbrev pub send_goes_on : SysResult → Bool
send_goes_on (returned k) = true
send_goes_on (failed e) = blocks e

-- A read of no bytes is the peer's end of the stream.
abbrev pub recv_goes_on : ReadResult → Bool
recv_goes_on (received []) = false
recv_goes_on (received (b ∷ bs)) = true
recv_goes_on (read_failed e) = blocks e

goes_on_send : (t : Tcp) (e : Errno) → (handle_send_perrno t e).0 ≡ blocks e
unfolding handle_send_perrno
goes_on_send t e = elim e [ eagain ↦ refl | _ ↦ refl ]

goes_on_recv : (t : Tcp) (e : Errno) → (handle_recv_perrno t e).0 ≡ blocks e
unfolding handle_recv_perrno
goes_on_recv t e = elim e [ eagain ↦ refl | _ ↦ refl ]

-- On a valid ring, with a system that takes no more than the iovecs hold: `send` ends once the system
-- gives an answer other than an interruption; the bytes that went out and those that wait afterwards
-- are those that waited before, in order; the count, the empty flag and the verdict on the
-- connection are those of the answer.
pub send_lem :
    (n : ℕ) (answers : List SysResult) (a : SysResult) (t : Tcp) (r : RingBuffer)
    → IsValid n r
    → retry answers ≡ some a
    → count a ≤ r.readable
    → let (transact, t', r') = sent n t r a in
      (send n answers t r ≡ some (transact, t', r'))
      × IsValid n r'
      × (wire n r a ++ contents n r' ≡ contents n r)
      × (transact.bytes ≡ count a)
      × (transact.buffer_flag ≡ (length (contents n r') == 0))
      × (transact.transport_ok ≡ send_goes_on a)
unfolding send sent empty
send_lem n answers (failed e) t r v q h =
    (rw q refl, v, refl, refl, ap (λ k. k == 0) (sym (length-contents n r)), goes_on_send t e)
send_lem n answers (returned k) t r v q h =
    let rest = commit_read_lem n r k v h in
    (
      rw q refl,
      rest.0,
      ap (λ xs. take k xs ++ contents n (commit_read n r k)) (prepare_read_lem n r v).0
          ∙ ap (◌++◌ (take k (contents n r))) rest.1
          ∙ take-append-drop k (contents n r),
      refl,
      ap (λ j. j == 0) (sym (length-contents n (commit_read n r k))),
      refl,
    )

-- On a valid ring, with a system that delivers no more than the iovecs hold: `recv` ends once the
-- system gives an answer other than an interruption; the delivered bytes join the end of those that
-- waited; the count, the full flag and the verdict on the connection are those of the answer.
pub recv_lem :
    (n : ℕ) (answers : List ReadResult) (a : ReadResult) (t : Tcp) (r : RingBuffer)
    → IsValid n r
    → retry_read answers ≡ some a
    → length (delivered a) ≤ n - r.readable
    → let (transact, t', r') = taken n t r a in
      (recv n answers t r ≡ some (transact, t', r'))
      × IsValid n r'
      × (contents n r' ≡ contents n r ++ delivered a)
      × (transact.bytes ≡ length (delivered a))
      × (transact.buffer_flag ≡ (length (contents n r') == n))
      × (transact.transport_ok ≡ recv_goes_on a)
unfolding recv taken full
recv_lem n answers (read_failed e) t r v q h = (
  rw q refl,
  v,
  sym (append-nil (contents n r)),
  refl,
  ap (λ k. k == n) (sym (length-contents n r)),
  goes_on_recv t e,
)
recv_lem n answers (received []) t r v q h = (
  rw q refl,
  v,
  sym (append-nil (contents n r)),
  refl,
  ap (λ k. k == n) (sym (length-contents n r)),
  refl,
)
recv_lem n answers (received (b ∷ bs)) t r v q h =
    let done = scatter-commit_write n r v (b ∷ bs) h in
    (
      rw q refl,
      done.0,
      done.1,
      refl,
      ap (λ k. k == n) (sym (length-contents n (taken n t r (received (b ∷ bs))).2)),
      refl,
    )

-- A read into a full ring is asked for no bytes, gets none, and is reported as the peer's shutdown.
pub recv-full :
    (n : ℕ) (answers : List ReadResult) (bs : List ℕ) (t : Tcp) (r : RingBuffer)
    → IsValid n r
    → r.readable ≡ n
    → retry_read answers ≡ some (received bs)
    → length bs ≤ n - r.readable
    → recv n answers t r
      ≡ some (
        record { transport_ok = false; buffer_flag = true; bytes = 0 },
        record t { perrno = peer_shutdown },
        r,
      )
unfolding recv taken full
recv-full n answers [] t r v e q h = rw q (rw (==-true r.readable n e) refl)
recv-full n answers (b ∷ bs) t r v e q h = absurd (omega arith)
