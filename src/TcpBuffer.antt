-- ===== src/TcpBuffer.antt =====
-- src/Client/TCPRingBuffer(invalid).hpp: the ring buffer that tells an empty ring from a full one by
-- the last action. A pointer is an offset into the array.
pub mod Counts
pub mod Commits
pub mod Same
mod Tests
use bittorrent_application_l.Base.{
  ℕ, ◌+◌, ◌-◌, Bool, true, false, not, ◌&&◌, ◌||◌, List, [], ◌∷◌, length, ltb, leb, ◌==◌,
  if◌then◌else◌, add_size, sub_size,
}
use bittorrent_application_l.RingBuffer.{mask}

-- ost
pub data Ost : Type 0 where
  read_action write_action : Ost

-- The capacity N is an argument of the operations, as it is of the template.
pub record TcpBuffer : Type 0 where
  pub prev_action : Ost
  pub read : ℕ
  pub write : ℕ
  pub buffer : List ℕ

-- One iovec: where it starts and how long it is.
pub record Iovec : Type 0 where
  pub iov_base : ℕ
  pub iov_len : ℕ

-- prepare_t: the iovecs in use, and whether there is anything to do.
pub record Prepared : Type 0 where
  pub first : Iovec
  pub rest : Iovec
  pub active : ℕ
  pub sucessful : Bool

abbrev pub no_iovec : Iovec
no_iovec = record { iov_base = 0; iov_len = 0 }

unfoldable pub prepared_bytes : Prepared → ℕ
prepared_bytes p = add_size p.first.iov_len p.rest.iov_len

abbrev pub was_read : Ost → Bool
was_read read_action = true
was_read write_action = false

unfoldable pub empty : TcpBuffer → Bool
empty b = was_read b.prev_action && b.read == b.write

unfoldable pub full : TcpBuffer → Bool
full b = not (was_read b.prev_action) && b.read == b.write

unfoldable pub size : ℕ → TcpBuffer → ℕ
size n b =
    if ltb b.read b.write then sub_size b.write b.read else add_size (sub_size n b.read) b.write

unfoldable pub r_available : ℕ → TcpBuffer → ℕ
unfolding empty full size
r_available n b = if empty b then 0 else if full b then n else size n b

unfoldable pub w_available : ℕ → TcpBuffer → ℕ
unfolding empty full size
w_available n b = if full b then 0 else if empty b then n else sub_size n (size n b)

-- Two iovecs, round the end of the array.
abbrev both : ℕ → ℕ → ℕ → Prepared
both n from to = record {
  first = record { iov_base = from; iov_len = sub_size n from };
  rest = record { iov_base = 0; iov_len = to };
  active = 2;
  sucessful = true;
}

abbrev one : ℕ → ℕ → Prepared
one from available = record {
  first = record { iov_base = from; iov_len = available };
  rest = no_iovec;
  active = 1;
  sucessful = not (available == 0);
}

unfoldable pub prepare_read : ℕ → TcpBuffer → Prepared
unfolding r_available
prepare_read n b =
    if ltb b.read b.write || r_available n b == 0
    then one b.read (r_available n b)
    else both n b.read b.write

unfoldable pub prepare_write : ℕ → TcpBuffer → Prepared
unfolding w_available
prepare_write n b =
    if ltb b.write b.read || w_available n b == 0
    then one b.write (w_available n b)
    else both n b.write b.read

unfoldable pub commit_read : ℕ → ℕ → TcpBuffer → TcpBuffer
unfolding mask
commit_read n bytes b =
    if bytes == 0
    then b
    else record b { read = mask n (add_size b.read bytes); prev_action = read_action }

unfoldable pub commit_write : ℕ → ℕ → TcpBuffer → TcpBuffer
unfolding mask
commit_write n bytes b =
    if bytes == 0
    then b
    else record b { write = mask n (add_size b.write bytes); prev_action = write_action }

unfoldable pub reset : TcpBuffer → TcpBuffer
reset b = record b { prev_action = read_action; read = 0; write = 0 }
