-- ===== src/RingBuffer.antt =====
-- src/Client/io_ring_buffer.hpp: the byte ring behind every socket.
-- A pointer into the array is the offset that it has there (`none` is the null pointer), and the
-- template parameter N is the first argument of each operation.
pub mod Fifo
pub mod Filling
pub mod Regions
mod Tests
use bittorrent_application_l.Base.{
  ℕ, add_size, sub_size, ◌-◌, ◌%◌, bit_and, Bool, true, not, ◌&&◌, ◌||◌, ltb, ◌==◌, if◌then◌else◌,
  List, Option, none, some,
}

-- struct iovec
pub record Iovec : Type 0 where
  pub iov_base : Option ℕ
  pub iov_len : ℕ

-- The array of two iovecs, as its two elements.
pub record Prepare : Type 0 where
  pub prepared_iovecs : ℕ
  pub iovec1 : Iovec
  pub iovec2 : Iovec

unfoldable pub prepare_t : ℕ → Option ℕ → ℕ → Option ℕ → ℕ → Prepare
prepare_t valid_size base1 len1 base2 len2 = record {
  prepared_iovecs = valid_size;
  iovec1 = record { iov_base = base1; iov_len = len1 };
  iovec2 = record { iov_base = base2; iov_len = len2 };
}

unfoldable pub prepared_bytes : Prepare → ℕ
prepared_bytes p = add_size p.iovec1.iov_len p.iovec2.iov_len

unfoldable pub prepare-empty : Prepare → Bool
prepare-empty p = p.prepared_iovecs == 0

pub record RingBuffer : Type 0 where
  pub read : ℕ
  pub write : ℕ
  pub readable : ℕ
  pub buffer : List ℕ

-- std::has_single_bit
unfoldable pub has_single_bit : ℕ → Bool
has_single_bit n = not (n == 0) && bit_and n (n - 1) == 0

unfoldable pub mask : ℕ → ℕ → ℕ
unfolding has_single_bit
mask n idx = if has_single_bit n then bit_and idx (n - 1) else idx % n

unfoldable pub empty : RingBuffer → Bool
empty r = r.readable == 0

unfoldable pub full : ℕ → RingBuffer → Bool
full n r = r.readable == n

unfoldable pub r_available : RingBuffer → ℕ
r_available r = r.readable

unfoldable pub w_available : ℕ → RingBuffer → ℕ
w_available n r = sub_size n r.readable

unfoldable pub prepare_read : ℕ → RingBuffer → Prepare
unfolding prepare_t empty full
prepare_read n r =
    if empty r
    then prepare_t 0 none 0 none 0
    else if ltb r.read r.write || full n r && r.read == 0
    then prepare_t 1 (some r.read) r.readable none 0
    else prepare_t 2 (some r.read) (sub_size n r.read) (some 0) r.write

unfoldable pub prepare_write : ℕ → RingBuffer → Prepare
unfolding prepare_t empty full w_available
prepare_write n r =
    if full n r
    then prepare_t 0 none 0 none 0
    else if ltb r.write r.read || empty r && r.write == 0
    then prepare_t 1 (some r.write) (w_available n r) none 0
    else prepare_t 2 (some r.write) (sub_size n r.write) (some 0) r.read

unfoldable pub commit_read : ℕ → RingBuffer → ℕ → RingBuffer
commit_read n r bytes =
    if bytes == 0
    then r
    else record r { read = mask n (add_size r.read bytes); readable = sub_size r.readable bytes }

unfoldable pub commit_write : ℕ → RingBuffer → ℕ → RingBuffer
commit_write n r bytes =
    if bytes == 0
    then r
    else record r { write = mask n (add_size r.write bytes); readable = add_size r.readable bytes }

unfoldable pub reset : RingBuffer → RingBuffer
reset r = record r { read = 0; write = 0; readable = 0 }
