-- ===== src/TcpBuffer/Commits.antt =====
-- What a commit does to the old ring buffer, and to the ring in use with its bytes.
use bittorrent_application_l.Base.{
  ℕ, ◌+◌, ◌-◌, ◌%◌, ◌^◌, ◌≤◌, ◌<◌, ◌≡◌, refl, sym, ap, ◌∙◌, inl, inr, arith, ◌==◌, Bool-cases,
  add_size, sub_size,
}
use bittorrent_application_l.RingBuffer
use bittorrent_application_l.RingBuffer.{RingBuffer, mask}
use bittorrent_application_l.RingBuffer.Fifo.{mask_lem}
use bittorrent_application_l.TcpBuffer.{
  TcpBuffer, read_action, write_action, r_available, w_available, commit_read, commit_write,
}
use bittorrent_application_l.TcpBuffer.Counts.{
  IsValid, waiting, waiting-le, r_available-waiting, w_available-waiting, waiting-write,
  waiting-read,
}

-- The ring of src/Client/io_ring_buffer.hpp with the same indices and bytes.
abbrev pub ring_of : ℕ → TcpBuffer → RingBuffer
ring_of n b = record {
  read = b.read;
  write = b.write;
  readable = r_available n b;
  buffer = b.buffer;
}

next_index-lt : (n i k : ℕ) → i < n → mask n (add_size i k) < n
next_index-lt n i k h = rw (mask_lem n (add_size i k) (omega arith)) (ground arith)

index_sum : (n i k : ℕ) → n ≤ 2 ^ 63 → i < n → k ≤ n → mask n (add_size i k) ≡ (i + k) % n
index_sum n i k s h l =
    mask_lem n (add_size i k) (omega arith)
    ∙ ap (λ j. j % n) (let e : add_size i k ≡ i + k = omega arith in e)

pub commit_write-IsValid : (n k : ℕ) (b : TcpBuffer) → IsValid n b → IsValid n (commit_write n k b)
unfolding commit_write
commit_write-IsValid n k b v = elim (Bool-cases (k == 0)) [
  | inl e ↦ rw e v
  | inr e ↦ rw e (record {
    small = v.small;
    read_in = v.read_in;
    write_in = next_index-lt n b.write k v.write_in;
  })
]

pub commit_read-IsValid : (n k : ℕ) (b : TcpBuffer) → IsValid n b → IsValid n (commit_read n k b)
unfolding commit_read
commit_read-IsValid n k b v = elim (Bool-cases (k == 0)) [
  | inl e ↦ rw e v
  | inr e ↦ rw e (record {
    small = v.small;
    read_in = next_index-lt n b.read k v.read_in;
    write_in = v.write_in;
  })
]

written_count :
    (n k : ℕ) (b : TcpBuffer)
    → IsValid n b
    → 0 < k
    → k ≤ w_available n b
    → r_available n (record b { write = mask n (add_size b.write k); prev_action = write_action })
      ≡ add_size (r_available n b) k
written_count n k b v p l =
    let act = b.prev_action in
    let q = w_available-waiting n b v in
    let le = waiting-le n act b.read b.write v.read_in v.write_in in
    r_available-waiting n _ (record {
      small = v.small;
      read_in = v.read_in;
      write_in = next_index-lt n b.write k v.write_in;
    })
    ∙ ap (waiting n write_action b.read) (index_sum n b.write k v.small v.write_in (omega arith))
    ∙ waiting-write n act b.read b.write k v.read_in v.write_in p (omega arith)
    ∙ (let e : waiting n act b.read b.write + k ≡ add_size (waiting n act b.read b.write) k =
          omega (arith, v.small) in
        e)
    ∙ ap (λ j. add_size j k) (sym (r_available-waiting n b v))

read_count :
    (n k : ℕ) (b : TcpBuffer)
    → IsValid n b
    → 0 < k
    → k ≤ r_available n b
    → r_available n (record b { read = mask n (add_size b.read k); prev_action = read_action })
      ≡ sub_size (r_available n b) k
read_count n k b v p l =
    let act = b.prev_action in
    let q = r_available-waiting n b v in
    let le = waiting-le n act b.read b.write v.read_in v.write_in in
    r_available-waiting n _ (record {
      small = v.small;
      read_in = next_index-lt n b.read k v.read_in;
      write_in = v.write_in;
    })
    ∙ ap (λ j. waiting n read_action j b.write)
        (index_sum n b.read k v.small v.read_in (omega arith))
    ∙ waiting-read n act b.read b.write k v.read_in v.write_in p (omega arith)
    ∙ (let e : waiting n act b.read b.write - k ≡ sub_size (waiting n act b.read b.write) k =
          omega (arith, v.small) in
        e)
    ∙ ap (λ j. sub_size j k) (sym (r_available-waiting n b v))

pub commit_write-ring_of :
    (n k : ℕ) (b : TcpBuffer)
    → IsValid n b
    → k ≤ w_available n b
    → ring_of n (commit_write n k b) ≡ RingBuffer.commit_write n (ring_of n b) k
unfolding commit_write RingBuffer.commit_write
commit_write-ring_of n k b v l = elim (Bool-cases (k == 0)) [
  | inl e ↦ rw e refl
  | inr e ↦ rw e (
      ap
        (λ j.
          let r : RingBuffer = record {
            read = b.read;
            write = mask n (add_size b.write k);
            readable = j;
            buffer = b.buffer;
          } in
          r)
        (written_count n k b v (ground arith) l))
]

pub commit_read-ring_of :
    (n k : ℕ) (b : TcpBuffer)
    → IsValid n b
    → k ≤ r_available n b
    → ring_of n (commit_read n k b) ≡ RingBuffer.commit_read n (ring_of n b) k
unfolding commit_read RingBuffer.commit_read
commit_read-ring_of n k b v l = elim (Bool-cases (k == 0)) [
  | inl e ↦ rw e refl
  | inr e ↦ rw e (
      ap
        (λ j.
          let r : RingBuffer = record {
            read = mask n (add_size b.read k);
            write = b.write;
            readable = j;
            buffer = b.buffer;
          } in
          r)
        (read_count n k b v (ground arith) l))
]
