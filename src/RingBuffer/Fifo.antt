-- ===== src/RingBuffer/Fifo.antt =====
-- The invariant of the ring, and the queue of bytes that it stands for.
use bittorrent_application_l.Base.{
  ℕ, ◌+◌, ◌-◌, ◌%◌, ◌^◌, ◌≤◌, ◌<◌, ◌≡◌, refl, sym, ap, ◌∙◌, List, [], ◌++◌, inl, inr, Bool-cases,
  arith, length, drop, mod-eq_of_lt, mod-add-mod, add_size,
}
use native.Mathlib.Nat.{mod-lt}
use bittorrent_application_l.Bits.{bit_and_mask}
use bittorrent_application_l.RingBuffer.{
  RingBuffer, has_single_bit, mask, commit_read, commit_write, reset,
}
use bittorrent_application_l.Window.{
  write_at, length-write_at, window, length-window, drop-window, window-write_at,
}

pub record IsValid (n : ℕ) (r : RingBuffer) : Type 0 where
  pub small : n ≤ 2 ^ 63
  pub storage : length r.buffer ≡ n
  pub read_in : r.read < n
  pub readable_in : r.readable ≤ n
  pub write_at_end : r.write ≡ (r.read + r.readable) % n

-- The bytes that wait in the ring, oldest first.
abbrev pub contents : ℕ → RingBuffer → List ℕ
contents n r = window 0 n r.buffer r.read r.readable

pub length-contents : (n : ℕ) (r : RingBuffer) → length (contents n r) ≡ r.readable
length-contents n r = length-window 0 n r.buffer r.read r.readable

-- Both forms of the mask are the remainder.
pub mask_lem : (n i : ℕ) → 0 < n → mask n i ≡ i % n
unfolding mask
mask_lem n i pos = elim (Bool-cases (has_single_bit n)) [
  | inl one ↦ rw one (bit_and_mask n i pos (unfold has_single_bit in ground arith))
  | inr many ↦ rw many
]

pub write_in : (n : ℕ) (r : RingBuffer) → IsValid n r → r.write < n
write_in n r v = omega arith

-- Writing into the array does not disturb the invariant.
pub buffer-IsValid :
    (n : ℕ) (r : RingBuffer) (buf : List ℕ)
    → IsValid n r
    → length buf ≡ length r.buffer
    → IsValid n (record r { buffer = buf })
buffer-IsValid n r buf v e = record {
  small = v.small;
  storage = e ∙ v.storage;
  read_in = v.read_in;
  readable_in = v.readable_in;
  write_at_end = v.write_at_end;
}

-- On valid rings the wrapping sums and the mask are plain arithmetic modulo n.
pub commit_read-eq :
    (n : ℕ) (r : RingBuffer) (bytes : ℕ)
    → IsValid n r
    → bytes ≤ r.readable
    → commit_read n r bytes
      ≡ record r { read = (r.read + bytes) % n; readable = r.readable - bytes }
unfolding commit_read
commit_read-eq n r bytes v h = ground (
  arith,
  mask_lem n (add_size r.read bytes),
  mod-eq_of_lt {n = r.read} {m = n} v.read_in,
  sum,
  ap (λ k. k % n) sum,
)
  where
    sum : add_size r.read bytes ≡ r.read + bytes
    sum = omega arith

pub commit_write-eq :
    (n : ℕ) (r : RingBuffer) (bytes : ℕ)
    → IsValid n r
    → bytes ≤ n - r.readable
    → commit_write n r bytes
      ≡ record r { write = (r.write + bytes) % n; readable = r.readable + bytes }
unfolding commit_write
commit_write-eq n r bytes v h = ground (
  arith,
  mask_lem n (add_size r.write bytes),
  mod-eq_of_lt {n = r.write} {m = n} (write_in n r v),
  sum,
  ap (λ k. k % n) sum,
)
  where
    sum : add_size r.write bytes ≡ r.write + bytes
    sum = omega (arith, write_in n r v)

-- A read of at most what is readable keeps the invariant and drops the oldest bytes.
pub commit_read_lem :
    (n : ℕ) (r : RingBuffer) (bytes : ℕ)
    → IsValid n r
    → bytes ≤ r.readable
    → IsValid n (commit_read n r bytes)
      × (contents n (commit_read n r bytes) ≡ drop bytes (contents n r))
commit_read_lem n r bytes v h = rw (commit_read-eq n r bytes v h) (
  record {
    small = v.small;
    storage = v.storage;
    read_in = mod-lt (r.read + bytes) (omega arith);
    readable_in = omega arith;
    write_at_end =
        v.write_at_end
        ∙ ap (λ k. k % n)
            (let e : r.read + r.readable ≡ r.read + bytes + (r.readable - bytes) = omega arith in e)
        ∙ sym (mod-add-mod (r.read + bytes) n (r.readable - bytes));
  },
  sym (drop-window 0 n r.buffer r.read bytes r.readable v.read_in h),
)

-- Bytes copied to the write position and committed keep the invariant and join the queue's end.
pub commit_write_lem :
    (n : ℕ) (r : RingBuffer) (bs : List ℕ)
    → IsValid n r
    → length bs ≤ n - r.readable
    → r.write + length bs ≤ n
    → let r' = commit_write n (record r { buffer = write_at r.buffer r.write bs }) (length bs) in
      IsValid n r' × (contents n r' ≡ contents n r ++ bs)
commit_write_lem n r bs v h fits = rw (commit_write-eq n copied (length bs) copied-IsValid h) (
  record {
    small = v.small;
    storage = copied-IsValid.storage;
    read_in = v.read_in;
    readable_in = omega arith;
    write_at_end =
        ap (λ k. (k + length bs) % n) v.write_at_end
        ∙ mod-add-mod (r.read + r.readable) n (length bs)
        ∙ ap (λ k. k % n)
            (let e : r.read + r.readable + length bs ≡ r.read + (r.readable + length bs) =
                omega arith in
              e);
  },
  window-write_at 0 n bs r.buffer r.read r.readable r.write (omega arith) v.read_in (omega arith)
      fits v.write_at_end,
)
  where
    copied : RingBuffer
    copied = record r { buffer = write_at r.buffer r.write bs }

    copied-IsValid : IsValid n copied
    copied-IsValid = buffer-IsValid n r _ v (length-write_at r.buffer r.write bs)

-- A fresh or reset ring over an array of n bytes is valid and empty.
pub reset-IsValid :
    (n : ℕ) (r : RingBuffer)
    → 0 < n
    → n ≤ 2 ^ 63
    → length r.buffer ≡ n
    → IsValid n (reset r) × (contents n (reset r) ≡ [])
unfolding reset
reset-IsValid n r pos small e = (
  record {
    small = small;
    storage = e;
    read_in = pos;
    readable_in = omega arith;
    write_at_end = sym (mod-eq_of_lt {n = 0} {m = n} pos);
  },
  refl,
)
