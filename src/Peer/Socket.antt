-- ===== src/Peer/Socket.antt =====
-- peer_nonblock_tcp: a non-blocking socket over the answers of the operating system.
-- The descriptor -1 is `none`. The scratch message header is not kept: each call fills it first.
use bittorrent_application_l.Base.{
  ℕ, Bool, true, false, List, [], ◌∷◌, Option, none, some, length, ◌>>=◌,
}
use bittorrent_application_l.RingBuffer.{
  RingBuffer, empty, full, prepare_write, commit_read, commit_write,
}
use bittorrent_application_l.RingBuffer.Regions.{scatter}

-- The error numbers that the code tells apart.
pub data Errno : Type 0 where
  eintr eagain ewouldblock epipe econnreset econnaborted einprogress einval eafnosupport : Errno
  ebadf enodev enomem eaddrinuse : Errno
  other : ℕ → Errno

-- `perrno`: -1, PEER_SHUTDOWN, or an error number.
pub data Perrno : Type 0 where
  no_error peer_shutdown : Perrno
  code : Errno → Perrno

-- sa_family_t: AF_INET, AF_INET6, and whatever else.
pub data Family : Type 0 where
  inet inet6 unspec : Family

pub data SysResult : Type 0 where
  returned : ℕ → SysResult
  failed : Errno → SysResult

-- A read delivers bytes; none of them at the end of the stream.
pub data ReadResult : Type 0 where
  received : List ℕ → ReadResult
  read_failed : Errno → ReadResult

-- do { … } while (result < 0 && errno == EINTR), over the answers in order. `none`: the last
-- answer was an interruption, and the loop still runs.
unfoldable pub retry : List SysResult → Option SysResult
retry [] = none
retry (returned n ∷ later) = some (returned n)
retry (failed eintr ∷ later) = retry later
retry (failed e ∷ later) = some (failed e)

unfoldable pub retry_read : List ReadResult → Option ReadResult
retry_read [] = none
retry_read (received bs ∷ later) = some (received bs)
retry_read (read_failed eintr ∷ later) = retry_read later
retry_read (read_failed e ∷ later) = some (read_failed e)

pub record Tcp : Type 0 where
  pub socket : Option ℕ
  pub perrno : Perrno

pub data ConnectResult : Type 0 where
  inprogress failed_connect connected : ConnectResult

unfoldable pub fresh_tcp : Tcp
fresh_tcp = record { socket = none; perrno = no_error }

opened : Tcp → SysResult → Bool × Tcp
opened t (returned fd) = (true, record t { socket = some fd })
opened t (failed e) = (false, record t { perrno = code e })

unfoldable pub open_socket : List SysResult → Tcp → Family → Option (Bool × Tcp)
unfolding opened
open_socket answers t domain = elim t.socket [
  | some fd ↦ some (false, record t { perrno = code einval })
  | none ↦ elim domain [
    | unspec ↦ some (false, record t { perrno = code eafnosupport })
    | _ ↦ retry answers >>= λ r. some (opened t r)
  ]
]

connecting : Tcp → SysResult → ConnectResult × Tcp
connecting t (returned n) = (connected, record t { perrno = no_error })
connecting t (failed einprogress) = (inprogress, record t { perrno = code einprogress })
connecting t (failed e) = (failed_connect, record t { perrno = code e })

unfoldable pub pconnect : List SysResult → Tcp → Family → Option (ConnectResult × Tcp)
unfolding connecting
pconnect answers t address_family = elim t.socket [
  | none ↦ some (failed_connect, record t { perrno = code ebadf })
  | some fd ↦ elim address_family [
    | unspec ↦ some (failed_connect, record t { perrno = code eafnosupport })
    | _ ↦ retry answers >>= λ r. some (connecting t r)
  ]
]

is_eagain : Errno → Bool
is_eagain eagain = true
is_eagain e = false

unfoldable pub handle_send_perrno : Tcp → Errno → Bool × Tcp
unfolding is_eagain
handle_send_perrno t err = (is_eagain err, record t { perrno = code err })

unfoldable pub handle_recv_perrno : Tcp → Errno → Bool × Tcp
unfolding is_eagain
handle_recv_perrno t err = (is_eagain err, record t { perrno = code err })

is_einprogress : Errno → Bool
is_einprogress einprogress = true
is_einprogress e = false

unfoldable pub handle_connect_perrno : Tcp → Errno → Bool × Tcp
unfolding is_einprogress
handle_connect_perrno t err = (is_einprogress err, record t { perrno = code err })

unfoldable pub close_socket : Tcp → Tcp
close_socket t = record { socket = none; perrno = no_error }

unfoldable pub disconnect : Tcp → Tcp
unfolding close_socket
disconnect t = close_socket t

unfoldable pub adopt_socket : Tcp → Option ℕ → Bool × Tcp
adopt_socket t none = (false, t)
adopt_socket t (some fd) = elim t.socket [
  | some old ↦ (false, t)
  | none ↦ (false, record t { socket = some fd })
]

-- The move operations: the new object takes the descriptor, and then the other one closes it.
unfoldable pub move_from : Tcp → Tcp × Tcp
unfolding close_socket
move_from source = (source, close_socket source)

-- send_transact and recv_transact; the flag is `buffer_empty` or `buffer_full`.
pub record Transact : Type 0 where
  pub transport_ok : Bool
  pub buffer_flag : Bool
  pub bytes : ℕ

unfoldable pub sent : ℕ → Tcp → RingBuffer → SysResult → Transact × Tcp × RingBuffer
unfolding handle_send_perrno
sent n t buffer (failed e) =
    let (ok, t') = handle_send_perrno t e in
    (record { transport_ok = ok; buffer_flag = empty buffer; bytes = 0 }, t', buffer)
sent n t buffer (returned k) =
    let buffer' = commit_read n buffer k in
    (
      record { transport_ok = true; buffer_flag = empty buffer'; bytes = k },
      record t { perrno = no_error },
      buffer',
    )

unfoldable pub send : ℕ → List SysResult → Tcp → RingBuffer → Option (Transact × Tcp × RingBuffer)
unfolding sent
send n answers t buffer = retry answers >>= λ r. some (sent n t buffer r)

-- The bytes arrive in the prepared iovecs, as recvmsg fills them.
unfoldable pub taken : ℕ → Tcp → RingBuffer → ReadResult → Transact × Tcp × RingBuffer
unfolding handle_recv_perrno
taken n t buffer (read_failed e) =
    let (ok, t') = handle_recv_perrno t e in
    (record { transport_ok = ok; buffer_flag = full n buffer; bytes = 0 }, t', buffer)
taken n t buffer (received []) = (
  record { transport_ok = false; buffer_flag = full n buffer; bytes = 0 },
  record t { perrno = peer_shutdown },
  buffer,
)
taken n t buffer (received (b ∷ bs)) =
    let filled = scatter (prepare_write n buffer) (b ∷ bs) buffer.buffer in
    let buffer' = commit_write n (record buffer { buffer = filled }) (length (b ∷ bs)) in
    (
      record { transport_ok = true; buffer_flag = full n buffer'; bytes = length (b ∷ bs) },
      record t { perrno = no_error },
      buffer',
    )

unfoldable pub recv : ℕ → List ReadResult → Tcp → RingBuffer → Option (Transact × Tcp × RingBuffer)
unfolding taken
recv n answers t buffer = retry_read answers >>= λ r. some (taken n t buffer r)
