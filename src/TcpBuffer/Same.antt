-- ===== src/TcpBuffer/Same.antt =====
-- The old ring buffer and the one in use keep the same bytes.
use bittorrent_application_l.Base.{
  ℕ, ◌-◌, ◌^◌, ◌≤◌, ◌<◌, ◌≡◌, sym, ap, ◌∙◌, inl, inr, false, not, ◌&&◌, ◌||◌, arith, ltb, ◌==◌,
  Bool-cases, add_size, sub_size,
}
use bittorrent_application_l.RingBuffer
use bittorrent_application_l.RingBuffer.{RingBuffer, mask}
use bittorrent_application_l.TcpBuffer.{
  TcpBuffer, Ost, was_read, r_available, w_available, empty, full, commit_read, commit_write,
  prepare_read, prepare_write, prepared_bytes,
}
use bittorrent_application_l.TcpBuffer.Counts.{
  IsValid, waiting, waiting-le, r_available-waiting, w_available-waiting,
}
use bittorrent_application_l.TcpBuffer.Commits.{
  ring_of, commit_write-IsValid, commit_read-IsValid, commit_write-ring_of, commit_read-ring_of,
}

w_available-ring_of :
    (n : ℕ) (b : TcpBuffer) → IsValid n b → w_available n b ≡ RingBuffer.w_available n (ring_of n b)
unfolding RingBuffer.w_available
w_available-ring_of n b v =
    let act = b.prev_action in
    let le = waiting-le n act b.read b.write v.read_in v.write_in in
    w_available-waiting n b v
    ∙ (let e : n - waiting n act b.read b.write ≡ sub_size n (waiting n act b.read b.write) =
          omega (arith, v.small) in
        e)
    ∙ ap (sub_size n) (sym (r_available-waiting n b v))

waiting_none :
    (n : ℕ) (act : Ost) (r w : ℕ)
    → r < n
    → w < n
    → (was_read act && r == w) ≡ (waiting n act r w == 0)
waiting_none n act r w h l = ground arith

waiting_all :
    (n : ℕ) (act : Ost) (r w : ℕ)
    → r < n
    → w < n
    → (not (was_read act) && r == w) ≡ (waiting n act r w == n)
waiting_all n act r w h l = ground arith

empty-ring_of : (n : ℕ) (b : TcpBuffer) → IsValid n b → empty b ≡ RingBuffer.empty (ring_of n b)
unfolding empty RingBuffer.empty
empty-ring_of n b v =
    waiting_none n b.prev_action b.read b.write v.read_in v.write_in
    ∙ ap (λ j. j == 0) (sym (r_available-waiting n b v))

full-ring_of : (n : ℕ) (b : TcpBuffer) → IsValid n b → full b ≡ RingBuffer.full n (ring_of n b)
unfolding full RingBuffer.full
full-ring_of n b v =
    waiting_all n b.prev_action b.read b.write v.read_in v.write_in
    ∙ ap (λ j. j == n) (sym (r_available-waiting n b v))

-- The lengths of the two iovecs round the end.
read_length :
    (n : ℕ) (act : Ost) (r w : ℕ)
    → n ≤ 2 ^ 63
    → r < n
    → w < n
    → (ltb r w || waiting n act r w == 0) ≡ false
    → add_size (sub_size n r) w ≡ waiting n act r w
read_length n act r w s h l e = ground arith

write_length :
    (n : ℕ) (act : Ost) (r w : ℕ)
    → n ≤ 2 ^ 63
    → r < n
    → w < n
    → (ltb w r || n - waiting n act r w == 0) ≡ false
    → add_size (sub_size n w) r ≡ n - waiting n act r w
write_length n act r w s h l e = ground arith

prepare_read-available :
    (n : ℕ) (b : TcpBuffer) → IsValid n b → prepared_bytes (prepare_read n b) ≡ r_available n b
unfolding prepared_bytes prepare_read
prepare_read-available n b v =
    let q = r_available-waiting n b v in
    let le = waiting-le n b.prev_action b.read b.write v.read_in v.write_in in
    elim (Bool-cases (ltb b.read b.write || r_available n b == 0)) [
      | inl e ↦ rw e (omega (arith, v.small))
      | inr e ↦ rw e (
          read_length n b.prev_action b.read b.write v.small v.read_in v.write_in
            (ap (λ j. ltb b.read b.write || j == 0) (sym q) ∙ e)
          ∙ sym q)
    ]

prepare_write-available :
    (n : ℕ) (b : TcpBuffer) → IsValid n b → prepared_bytes (prepare_write n b) ≡ w_available n b
unfolding prepared_bytes prepare_write
prepare_write-available n b v =
    let q = w_available-waiting n b v in
    elim (Bool-cases (ltb b.write b.read || w_available n b == 0)) [
      | inl e ↦ rw e (omega (arith, v.small))
      | inr e ↦ rw e (
          write_length n b.prev_action b.read b.write v.small v.read_in v.write_in
            (ap (λ j. ltb b.write b.read || j == 0) (sym q) ∙ e)
          ∙ sym q)
    ]

-- The two rings agree on whether they are empty or full, and on how much can be written.
abbrev pub Agree : ℕ → TcpBuffer → Type 0
Agree n b =
    (empty b ≡ RingBuffer.empty (ring_of n b))
    × (full b ≡ RingBuffer.full n (ring_of n b))
    × (w_available n b ≡ RingBuffer.w_available n (ring_of n b))
    × (prepared_bytes (prepare_read n b) ≡ r_available n b)
    × (prepared_bytes (prepare_write n b) ≡ w_available n b)

-- With indices within an array of at most 2^63 bytes, the old ring buffer is the one in use: both
-- tell an empty and a full ring and the free bytes alike, what is prepared is what is available, and
-- a commit of no more than is available keeps the indices within the array and is the same commit.
pub commit-ring_of :
    (n j k : ℕ) (b : TcpBuffer)
    → IsValid n b
    → j ≤ w_available n b
    → k ≤ r_available n b
    → Agree n b
      × IsValid n (commit_write n j b)
      × IsValid n (commit_read n k b)
      × (ring_of n (commit_write n j b) ≡ RingBuffer.commit_write n (ring_of n b) j)
      × (ring_of n (commit_read n k b) ≡ RingBuffer.commit_read n (ring_of n b) k)
commit-ring_of n j k b v l m = (
  (
    empty-ring_of n b v,
    full-ring_of n b v,
    w_available-ring_of n b v,
    prepare_read-available n b v,
    prepare_write-available n b v,
  ),
  commit_write-IsValid n j b v,
  commit_read-IsValid n k b v,
  commit_write-ring_of n j b v l,
  commit_read-ring_of n k b v m,
)
