-- ===== src/Peer/Connection.antt =====
-- PeerConnection: one peer's socket, rings, timers and state.
use bittorrent_application_l.Base.{
  ℕ, Bool, true, false, List, [], ◌++◌, Option, none, some, take, drop, replicate, ◌||◌, require,
  ◌>>=◌, ◌>>◌,
}
use bittorrent_application_l.RingBuffer.{RingBuffer, reset}
use bittorrent_application_l.Handshake.{FrameCursor}
use bittorrent_application_l.Peer.Socket.{
  Tcp, Family, inet, inet6, unspec, SysResult, ReadResult, Transact, send, recv,
}

-- enum class pstate
pub data PState : Type 0 where
  null discovered handshake connected disconnected failed : PState

-- enum class psource
pub data PSource : Type 0 where
  null tracker tcp_server : PSource

-- enum class pipv
pub data Pipv : Type 0 where
  null ipv4 ipv6 ipv4maskedv6 : Pipv

-- peer_sock_store_t: the family, the address and the port, as bytes.
pub record SockStore : Type 0 where
  pub family : Family
  pub addr : List ℕ
  pub port : List ℕ

-- A set of libev event bits.
pub record Events : Type 0 where
  pub ev_read : Bool
  pub ev_write : Bool
  pub ev_error : Bool

abbrev pub ev_read_only : Events
ev_read_only = record { ev_read = true; ev_write = false; ev_error = false }

abbrev pub ev_write_only : Events
ev_write_only = record { ev_read = false; ev_write = true; ev_error = false }

-- peer_watchers: whether each watcher runs, what it waits for, and whether it points to the peer.
pub record Watchers : Type 0 where
  pub sock_active : Bool
  pub sock_fd : Option ℕ
  pub sock_events : Events
  pub timer_active : Bool
  pub timer_after : ℕ
  pub attached : Bool

unfoldable pub stop : Watchers → Watchers
stop w = record w { sock_active = false; timer_active = false }

-- peer_stats_t has the one field `failures`.
pub record PeerConnection : Type 0 where
  pub tcp : Tcp
  pub store : SockStore
  pub recv_buffer : RingBuffer
  pub send_buffer : RingBuffer
  pub listener : Watchers
  pub key : List ℕ
  pub peer_id : List ℕ
  pub state : PState
  pub source : PSource
  pub ipv : Pipv
  pub outgoing_frame_cursor : FrameCursor
  pub failures : ℕ

abbrev pub no_store : SockStore
no_store = record { family = unspec; addr = []; port = [] }

-- The keys: a union of 6 bytes and 18 bytes, kept as its 18 bytes.
abbrev pub ipv4_key : List ℕ → List ℕ
ipv4_key key = take 6 key

-- The copies of `port` start one byte too far; past the union's 18 bytes comes the peer id.
unfoldable pub store_of : PSource → Pipv → List ℕ → List ℕ → SockStore → SockStore
store_of PSource.tracker Pipv.ipv4 key peer_id store = record {
  family = inet;
  addr = take 4 key;
  port = take 2 (drop 5 key);
}
store_of PSource.tracker Pipv.ipv6 key peer_id store = record {
  family = inet6;
  addr = take 16 key;
  port = take 2 (drop 17 (key ++ peer_id));
}
store_of PSource.tracker Pipv.ipv4maskedv6 key peer_id store = record {
  family = inet6;
  addr = take 16 key;
  port = take 2 (drop 17 (key ++ peer_id));
}
store_of _ _ key peer_id store = store

unfoldable pub initialize_connection :
    PeerConnection → List ℕ → Pipv → PSource → PState → PeerConnection
unfolding store_of
initialize_connection p key ip_version peer_source peer_state = record p {
  listener = record p.listener { attached = true };
  key = key;
  ipv = ip_version;
  source = peer_source;
  state = peer_state;
  store = store_of peer_source ip_version key p.peer_id p.store;
}

unfoldable pub is_closed : Option ℕ → Bool
is_closed none = true
is_closed (some fd) = false

-- `none` is the failed assertion that the socket is closed.
unfoldable pub teardown_connection : Bool → PeerConnection → Option PeerConnection
unfolding stop reset is_closed
teardown_connection ndebug p = do
  require (ndebug || is_closed p.tcp.socket)
  some (record {
    tcp = p.tcp;
    store = no_store;
    recv_buffer = reset p.recv_buffer;
    send_buffer = reset p.send_buffer;
    listener = record (stop p.listener) { sock_fd = none; attached = false };
    key = replicate 18 0;
    peer_id = replicate 20 0;
    state = PState.null;
    source = PSource.null;
    ipv = Pipv.null;
    outgoing_frame_cursor = record { cursor = 0 };
    failures = 0;
  })

unfoldable pub send_messages : List SysResult → PeerConnection → Option (Transact × PeerConnection)
send_messages answers p = do
  (t, tcp', buffer') ← send 68 answers p.tcp p.send_buffer
  some (t, record p { tcp = tcp'; send_buffer = buffer' })

unfoldable pub recv_messages : List ReadResult → PeerConnection → Option (Transact × PeerConnection)
recv_messages answers p = do
  (t, tcp', buffer') ← recv 68 answers p.tcp p.recv_buffer
  some (t, record p { tcp = tcp'; recv_buffer = buffer' })
