-- ===== src/Manager/Accept.antt =====
-- accept_peer_connection and the callback of the listening socket.
pub mod Yields
pub mod Admission
pub mod Keys
use bittorrent_application_l.Base.{
  ℕ, zero, suc, Bool, true, false, not, ◌&&◌, ltb, ◌==◌, if◌then◌else◌, List, [], ◌∷◌, ◌++◌, Option,
  none, some, take, drop, replicate,
}
use bittorrent_application_l.Handshake.{equal}
use bittorrent_application_l.SlotPool.{available}
use bittorrent_application_l.Peer.Socket.{
  Errno, eintr, econnaborted, inet, inet6, unspec, close_socket,
}
use bittorrent_application_l.Peer.Connection.{
  PState, PSource, Pipv, SockStore, ev_read_only, ipv4_key, initialize_connection,
}
use bittorrent_application_l.Manager.State.{
  Manager, M, pure, ◌>>=◌, ◌>>◌, modify, get, lift, when, Env, ask, assert, AcceptResult, accepted,
  accept_failed, get_peer, try_emplace, assign, set_statistics, increment_outbound_inflight,
  get_outbound_inflight, max_outbound_inflight, has_met_connection_quota,
}
use bittorrent_application_l.Manager.Connecting.{
  with_peer, arm_connection_watchers, delete_peer_connection, resolve_inflight,
}
use bittorrent_application_l.Manager.Scheduler.{acquire_slot, is_some}
use bittorrent_application_l.Manager.Callbacks.{is_connected}

unfoldable pub handle_server_errno : Errno → Bool
handle_server_errno eintr = true
handle_server_errno econnaborted = true
handle_server_errno error = false

-- IN6_IS_ADDR_V4MAPPED
unfoldable pub is_v4mapped : List ℕ → Bool
is_v4mapped addr = equal (take 12 addr) (replicate 10 0 ++ (255 ∷ 255 ∷ []))

-- The kind of the peer's address and its key, as the 18 bytes of the union.
unfoldable pub peer_address : SockStore → Option (Pipv × List ℕ)
unfolding is_v4mapped
peer_address store = elim store.family [
  | inet6 ↦
      if is_v4mapped store.addr
      then some (Pipv.ipv4maskedv6, drop 12 store.addr ++ (store.port ++ replicate 12 0))
      else some (Pipv.ipv6, store.addr ++ store.port)
  | inet ↦ some (Pipv.ipv4, store.addr ++ (store.port ++ replicate 12 0))
  | unspec ↦ none
]

abbrev pub is_ipv6 : Pipv → Bool
is_ipv6 Pipv.ipv6 = true
is_ipv6 v = false

-- The peer's entry in its register: whether it is taken for new, and the slot that is registered.
-- Under ipv6 the answer of try_emplace is not looked at.
unfoldable pub register_slot : Pipv → List ℕ → ℕ → M (Bool × ℕ)
register_slot ip_version key i m =
    if is_ipv6 ip_version
    then (let (inserted, slot, register) = try_emplace key i m.ipv6_peers in
        some ((false, slot), record m { ipv6_peers = register }))
    else (let (inserted, slot, register) = try_emplace (ipv4_key key) i m.ipv4_peers in
        some ((inserted, slot), record m { ipv4_peers = register }))

-- The key's entry becomes the new slot.
unfoldable pub replace_slot : Pipv → List ℕ → ℕ → M (Unit {0})
replace_slot ip_version key i m =
    if is_ipv6 ip_version
    then some (tt, record m { ipv6_peers = assign key i m.ipv6_peers })
    else some (tt, record m { ipv4_peers = assign (ipv4_key key) i m.ipv4_peers })

module _ (env : Env) where
  -- The peer that is registered under the key makes way.
  unfoldable pub displace : Pipv → List ℕ → ℕ → ℕ → M (Unit {0})
  unfolding replace_slot
  displace ip_version key i old = do
    old_peer ← get_peer old
    when (not (is_connected old_peer.state)) (do
      with_peer old (λ p. record p { tcp = close_socket p.tcp })
      resolve_inflight env old_peer)
    delete_peer_connection env old
    replace_slot ip_version key i

  unfoldable pub initialize_server_specifics : ℕ → ℕ → SockStore → M (Unit {0})
  initialize_server_specifics i fd store =
      with_peer i λ p. record p { tcp = record p.tcp { socket = some fd }; store = store }

  abbrev pub make_way : Pipv → List ℕ → ℕ → Bool × ℕ → M (Unit {0})
  make_way ip_version key i (unique, mapped) = when (not unique) (displace ip_version key i mapped)

  -- The slot's peer is set up and watched.
  abbrev pub settle : Pipv × List ℕ → ℕ → ℕ → SockStore → M Bool
  settle (ip_version, key) i fd new_store = do
    with_peer i λ p. initialize_connection p key ip_version PSource.tcp_server PState.handshake
    initialize_server_specifics i fd new_store
    arm_connection_watchers i ev_read_only
    pure true

  -- What accept_peer_connection does once the socket is accepted and a slot is free.
  unfoldable pub admit : ℕ → SockStore → M Bool
  unfolding peer_address register_slot displace
  admit fd new_store = do
    modify (set_statistics increment_outbound_inflight)
    (ip_version, key) ← lift (peer_address new_store)
    acquired ← acquire_slot
    assert env (is_some acquired)
    i ← lift acquired
    registered ← register_slot ip_version key i
    make_way ip_version key i registered
    settle (ip_version, key) i fd new_store

  abbrev pub after_accept : AcceptResult → M Bool
  after_accept (accept_failed error) = pure (handle_server_errno error)
  after_accept (accepted fd new_store) = do
    m ← get
    if available m.connection_pool == 0 then pure false else admit fd new_store

  unfoldable pub accept_peer_connection : M Bool
  unfolding handle_server_errno admit
  accept_peer_connection = do answer ← ask env.accepts; after_accept answer

  abbrev may_accept : Manager → Bool
  may_accept m =
      not (has_met_connection_quota m.statistics)
      && ltb (get_outbound_inflight m.statistics) max_outbound_inflight

  -- The callback's loop. The result says whether it has ended within the fuel: an interrupted or
  -- aborted accept is tried again for as long as the system answers that.
  unfoldable pub server_socket_callback : ℕ → M Bool
  server_socket_callback zero = pure false
  server_socket_callback (suc fuel) = do
    m ← get
    elim (may_accept m) [
      | false ↦ pure true
      | true ↦ do
        pending ← accept_peer_connection
        elim pending [ false ↦ pure true | true ↦ server_socket_callback fuel ]
    ]
