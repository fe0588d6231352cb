-- ===== src/Peer/Session.antt =====
-- PeerSession: the transfer side's view of a connected peer.
use bittorrent_application_l.Base.{
  ℕ, Bool, true, false, ◌≡◌, refl, List, [], Option, none, some, ◌>>=◌, arith, length,
}
use bittorrent_application_l.RingBuffer.{RingBuffer, reset}
use bittorrent_application_l.RingBuffer.Fifo.{IsValid, contents, reset-IsValid}
use bittorrent_application_l.DynamicBitset.{Bitset, reset_set}
use bittorrent_application_l.Peer.Socket.{
  Perrno, Tcp, SysResult, ReadResult, Transact, adopt_socket, close_socket, send, recv,
}
use bittorrent_application_l.Peer.Connection.{Watchers, stop}

-- connect_update and disconnect_update, with the peer's slot as its index.
pub record Endpoint : Type 0 where
  pub peer : ℕ
  pub socket : Option ℕ
  pub id : ℕ
  pub generation : ℕ

pub record Disconnected : Type 0 where
  pub peer : Option ℕ
  pub generation : ℕ
  pub perrno : Perrno

-- `peer` is `none` for the dummy. A std::bitset<2> is its two bits, `me` first.
pub record PeerSession : Type 0 where
  pub tcp : Tcp
  pub recv_buffer : RingBuffer
  pub send_buffer : RingBuffer
  pub watcher : Watchers
  pub id : ℕ
  pub generation : ℕ
  pub choke : Bool × Bool
  pub interest : Bool × Bool
  pub down_rate : ℕ
  pub upld_rate : ℕ
  pub bitfield : Bitset
  pub peer : Option ℕ

-- 1 << tcp_bufexp as an uint8_t expression that is promoted: 2^16.
abbrev pub session_size : ℕ
session_size = 65536

unfoldable pub session_send : List SysResult → PeerSession → Option (Transact × PeerSession)
session_send answers s = do
  (t, tcp', buffer') ← send session_size answers s.tcp s.send_buffer
  some (t, record s { tcp = tcp'; send_buffer = buffer' })

unfoldable pub session_recv : List ReadResult → PeerSession → Option (Transact × PeerSession)
session_recv answers s = do
  (t, tcp', buffer') ← recv session_size answers s.tcp s.recv_buffer
  some (t, record s { tcp = tcp'; recv_buffer = buffer' })

unfoldable pub is_dummy : PeerSession → Bool
is_dummy s = elim s.peer [ none ↦ true | some p ↦ false ]

unfoldable pub set_endpoint : Endpoint → PeerSession → PeerSession
set_endpoint endpoint s = record s {
  peer = some endpoint.peer;
  id = endpoint.id;
  generation = endpoint.generation;
  tcp = (adopt_socket s.tcp endpoint.socket).1;
}

unfoldable pub endpoint_disconnected : PeerSession → Disconnected × PeerSession
unfolding stop reset
endpoint_disconnected s = (
  record { peer = s.peer; generation = s.generation; perrno = s.tcp.perrno },
  record {
    tcp = close_socket s.tcp;
    recv_buffer = reset s.recv_buffer;
    send_buffer = reset s.send_buffer;
    watcher = stop s.watcher;
    id = 0;
    generation = 0;
    choke = (true, true);
    interest = (false, false);
    down_rate = 0;
    upld_rate = 0;
    bitfield = reset_set s.bitfield;
    peer = none;
  },
)

adopt_socket-free :
    (held : Option ℕ) (error : Perrno) (fd : ℕ)
    → held ≡ none
    → (adopt_socket (record { socket = held; perrno = error }) (some fd)).1.socket ≡ some fd
unfolding adopt_socket
adopt_socket-free none error fd e = refl
adopt_socket-free (some old) error fd e = cc

-- A session that takes over a peer and its socket from a closed state, and then loses it: it holds the
-- socket in between, the notice names that peer and generation, and afterwards it is the dummy with
-- its socket closed and both rings valid and empty.
pub set_endpoint-endpoint_disconnected :
    (s : PeerSession) (peer fd id generation : ℕ)
    → s.tcp.socket ≡ none
    → length s.recv_buffer.buffer ≡ session_size
    → length s.send_buffer.buffer ≡ session_size
    → let held =
        set_endpoint
          (record { peer = peer; socket = some fd; id = id; generation = generation })
          s in
      let (notice, s') = endpoint_disconnected held in
      (held.tcp.socket ≡ some fd)
      × (notice.peer ≡ some peer)
      × (notice.generation ≡ generation)
      × (is_dummy s' ≡ true)
      × (s'.tcp.socket ≡ none)
      × (contents session_size s'.recv_buffer ≡ [])
      × (contents session_size s'.send_buffer ≡ [])
      × IsValid session_size s'.recv_buffer
      × IsValid session_size s'.send_buffer
unfolding set_endpoint endpoint_disconnected is_dummy close_socket
set_endpoint-endpoint_disconnected s peer fd id generation closed r w = (
  adopt_socket-free s.tcp.socket s.tcp.perrno fd closed,
  refl,
  refl,
  refl,
  refl,
  (reset-IsValid session_size s.recv_buffer (omega arith) (omega arith) r).1,
  (reset-IsValid session_size s.send_buffer (omega arith) (omega arith) w).1,
  (reset-IsValid session_size s.recv_buffer (omega arith) (omega arith) r).0,
  (reset-IsValid session_size s.send_buffer (omega arith) (omega arith) w).0,
)
