-- ===== src/Manager/State.antt =====
-- The manager's state, and the steps that its functions are made of.
-- A `PeerConnection&` and a `connection_slot*` are the index of the slot in the pool.
use bittorrent_application_l.Base.{
  ℕ, zero, suc, Bool, true, false, not, ◌||◌, ltb, ◌==◌, if◌then◌else◌, List, [], ◌∷◌, Option, none,
  some, add_size, sub_size,
}
use bittorrent_application_l.Handshake.{equal}
use bittorrent_application_l.OverwritableCache.{Cache}
use bittorrent_application_l.SlotPool.{Slot, Pool}
use bittorrent_application_l.Peer.Socket.{SysResult, ReadResult, Perrno, Errno}
use bittorrent_application_l.Peer.Connection.{PeerConnection, SockStore}

pub record Statistics : Type 0 where
  pub connected_bittorrent_peers : ℕ
  pub inbound_inflight : ℕ
  pub outbound_inflight : ℕ

pub record PeerFailureUpdate : Type 0 where
  pub connection : ℕ
  pub cached_generation : ℕ

pub record DisconnectUpdate : Type 0 where
  pub peer : ℕ
  pub generation : ℕ
  pub perrno : Perrno

pub record ConnectUpdate : Type 0 where
  pub peer : ℕ
  pub socket : Option ℕ
  pub id : ℕ
  pub generation : ℕ

-- inbound_scheduler_t::spot_t
pub data Spot : Type 0 where
  discovered disconnected failed : Spot

-- inbound_scheduler_t; `notified` is whether a notification of the daemon is pending.
pub record Scheduler : Type 0 where
  pub current : Spot
  pub empty_discovered : Bool
  pub empty_disconnected : Bool
  pub empty_failed : Bool
  pub notified : Bool

-- unordered_map<Key, connection_slot*> by its entries.
abbrev pub Register : Type 0
Register = List (List ℕ × ℕ)

-- The queues between threads hold what has been pushed and not yet popped. `calls` counts the
-- system calls made so far.
pub record Manager : Type 0 where
  pub statistics : Statistics
  pub connection_pool : Pool PeerConnection
  pub ipv4_peers : Register
  pub ipv6_peers : Register
  pub disconnects : List DisconnectUpdate
  pub discoveries : List (List ℕ)
  pub cache : Cache (List ℕ)
  pub retry_queue : List PeerFailureUpdate
  pub scheduler : Scheduler
  pub connects : List ConnectUpdate
  pub calls : ℕ

-- `none`: a failed assertion, an access outside the pool, an address family that the code rules
-- out, or a retried call that still runs.
abbrev pub M : Type 0 → Type 0
M A = Manager → Option (A × Manager)

abbrev pub pure : {A : Type 0} → A → M A
pure a m = some (a, m)

infixl 5 ◌>>=◌ ◌>>◌
abbrev pub ◌>>=◌ : {A B : Type 0} → M A → (A → M B) → M B
◌>>=◌ s f m = elim (s m) [ none ↦ none | some (a, m') ↦ f a m' ]

abbrev pub ◌>>◌ : {B : Type 0} → M (Unit {0}) → M B → M B
s >> t = s >>= λ _. t

abbrev pub modify : (Manager → Manager) → M (Unit {0})
modify f m = some (tt, f m)

-- The state as a value.
unfoldable pub get : M Manager
get m = some (m, m)

abbrev pub lift : {A : Type 0} → Option A → M A
lift none m = none
lift (some a) m = some (a, m)

abbrev pub when : Bool → M (Unit {0}) → M (Unit {0})
when b s = if b then s else pure tt

unfoldable pub find_slot : List (Slot PeerConnection) → ℕ → Option PeerConnection
find_slot [] i = none
find_slot (s ∷ slots) zero = some s.object
find_slot (s ∷ slots) (suc i) = find_slot slots i

unfoldable pub store_slot :
    List (Slot PeerConnection) → ℕ → PeerConnection → List (Slot PeerConnection)
store_slot [] i p = []
store_slot (s ∷ slots) zero p = record s { object = p } ∷ slots
store_slot (s ∷ slots) (suc i) p = s ∷ store_slot slots i p

unfoldable pub get_peer : ℕ → M PeerConnection
get_peer i m = lift (find_slot m.connection_pool.pool i) m

unfoldable pub set_peer : ℕ → PeerConnection → M (Unit {0})
set_peer i p m = some (
  tt,
  record m {
    connection_pool = record m.connection_pool { pool = store_slot m.connection_pool.pool i p };
  },
)

-- unordered_map::find, erase, operator[] and try_emplace
unfoldable pub lookup : List ℕ → Register → Option ℕ
lookup key [] = none
lookup key ((k, slot) ∷ r) = if equal k key then some slot else lookup key r

unfoldable pub erase : List ℕ → Register → Register
erase key [] = []
erase key ((k, slot) ∷ r) = if equal k key then r else (k, slot) ∷ erase key r

unfoldable pub assign : List ℕ → ℕ → Register → Register
assign key slot [] = (key, slot) ∷ []
assign key slot ((k, s) ∷ r) = if equal k key then (k, slot) ∷ r else (k, s) ∷ assign key slot r

-- Whether a new entry was made, and the slot that the key has then.
unfoldable pub try_emplace : List ℕ → ℕ → Register → Bool × ℕ × Register
unfolding lookup
try_emplace key slot r = elim (lookup key r) [
  | none ↦ (true, slot, (key, slot) ∷ r)
  | some old ↦ (false, old, r)
]

abbrev pub set_statistics : (Statistics → Statistics) → Manager → Manager
set_statistics f m = record m { statistics = f m.statistics }

-- The counters wrap below zero, as std::size_t does.
unfoldable pub single_inbound_resolved : Statistics → Statistics
single_inbound_resolved s = record s { inbound_inflight = sub_size s.inbound_inflight 1 }

unfoldable pub single_outbound_resolved : Statistics → Statistics
single_outbound_resolved s = record s { outbound_inflight = sub_size s.outbound_inflight 1 }

unfoldable pub increment_outbound_inflight : Statistics → Statistics
increment_outbound_inflight s = record s { outbound_inflight = add_size s.outbound_inflight 1 }

unfoldable pub increment_connected_bittorrent_peers : Statistics → Statistics
increment_connected_bittorrent_peers s = record s {
  connected_bittorrent_peers = add_size s.connected_bittorrent_peers 1;
}

unfoldable pub decrement_connected_bittorrent_peers : Statistics → Statistics
decrement_connected_bittorrent_peers s =
    if s.connected_bittorrent_peers == 0
    then s
    else record s { connected_bittorrent_peers = sub_size s.connected_bittorrent_peers 1 }

unfoldable pub get_bittorrent_connected : Statistics → ℕ
get_bittorrent_connected s = s.connected_bittorrent_peers

unfoldable pub get_inbound_inflight : Statistics → ℕ
get_inbound_inflight s = s.inbound_inflight

unfoldable pub get_outbound_inflight : Statistics → ℕ
get_outbound_inflight s = s.outbound_inflight

-- bprotocol::constants
abbrev pub healthy_peer_count : ℕ
healthy_peer_count = 50

abbrev pub max_inbound_inflight : ℕ
max_inbound_inflight = 35

abbrev pub max_outbound_inflight : ℕ
max_outbound_inflight = 15

abbrev pub max_reties : ℕ
max_reties = 3

abbrev pub connect_timeout : ℕ
connect_timeout = 10

abbrev pub retry_timeout : ℕ
retry_timeout = 15

abbrev pub pool_size : ℕ
pool_size = 200

unfoldable pub has_met_connection_quota : Statistics → Bool
has_met_connection_quota s = not (ltb s.connected_bittorrent_peers healthy_peer_count)

unfoldable pub send_notification : M (Unit {0})
send_notification = modify λ m. record m { scheduler = record m.scheduler { notified = true } }

-- What getsockopt says of SO_ERROR: nothing pending, an error, or that the call itself failed.
pub data SoError : Type 0 where
  pending_nothing getsockopt_failed : SoError
  pending : Errno → SoError

-- What accept4 returns: a descriptor and the peer's address, or an error.
pub data AcceptResult : Type 0 where
  accepted : ℕ → SockStore → AcceptResult
  accept_failed : Errno → AcceptResult

-- What the operating system answers: to the n-th call, by kind of call. `increment_inbound_inflight`
-- is declared by the program and defined nowhere, so it is a parameter too.
pub record Env : Type 0 where
  pub ndebug : Bool
  pub sockets : ℕ → List SysResult
  pub connections : ℕ → List SysResult
  pub sends : ℕ → List SysResult
  pub recvs : ℕ → List ReadResult
  pub so_error : ℕ → SoError
  pub accepts : ℕ → AcceptResult
  pub increment_inbound_inflight : Statistics → Statistics

-- The answers to the next call.
unfoldable pub ask : {A : Type 0} → (ℕ → A) → M A
ask answers m = some (answers m.calls, record m { calls = suc m.calls })

-- An assertion, compiled in unless NDEBUG is defined.
abbrev pub assert : Env → Bool → M (Unit {0})
assert env b = if env.ndebug || b then pure tt else λ m. none
