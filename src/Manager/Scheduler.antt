-- ===== src/Manager/Scheduler.antt =====
-- inbound_scheduler_t: which waiting peer the manager connects to next.
use bittorrent_application_l.Base.{
  ℕ, zero, suc, Bool, true, false, not, ◌||◌, ◌==◌, if◌then◌else◌, List, [], ◌∷◌, ◌++◌, Option,
  none, some, replicate, add_size,
}
use bittorrent_application_l.OverwritableCache.{Cache, push, fresh_pop}
use bittorrent_application_l.SlotPool.{acquire, release, available, generation}
use bittorrent_application_l.Peer.Socket.{Perrno, peer_shutdown}
use bittorrent_application_l.Peer.Connection.{PState, PSource, Pipv, initialize_connection}
use bittorrent_application_l.Manager.State.{
  Manager, M, pure, ◌>>=◌, ◌>>◌, modify, get, lift, Env, assert, get_peer, Spot, discovered,
  disconnected, failed, DisconnectUpdate, PeerFailureUpdate, try_emplace, set_statistics,
  decrement_connected_bittorrent_peers, has_met_connection_quota, pool_size, send_notification,
}
use bittorrent_application_l.Manager.Connecting.{
  with_peer, is_server, initiate_connect, delete_peer_connection,
}

-- The address of `discoveries.cache`'s empty elements.
abbrev pub no_address : List ℕ
no_address = replicate 6 0

abbrev pub cache_size : ℕ
cache_size = 200

-- peer_key_t { .ipv4 = addr }: the bytes after the six are not read under an ipv4 key.
abbrev pub key_of_ipv4 : List ℕ → List ℕ
key_of_ipv4 addr = addr ++ replicate 12 0

unfoldable pub pop_fresh : M (Option (List ℕ))
pop_fresh m =
    let (out, cache') = fresh_pop no_address cache_size m.cache in
    some (out, record m { cache = cache' })

unfoldable pub acquire_slot : M (Option ℕ)
acquire_slot m =
    let (slot, pool) = acquire m.connection_pool in some (slot, record m { connection_pool = pool })

abbrev pub is_some : Option ℕ → Bool
is_some none = false
is_some (some i) = true

-- while (queue.pop(addr)) cache.push(std::move(addr)) over what the queue holds
unfoldable pub push_all : List (List ℕ) → Cache (List ℕ) → Cache (List ℕ)
push_all [] c = c
push_all (addr ∷ later) c = push_all later (push no_address cache_size c addr)

-- A start ends a handler's loop; otherwise the loop goes on.
abbrev pub or_else : M Bool → M Bool → M Bool
or_else s rest = do started ← s; if started then pure true else rest

module _ (env : Env) where
  unfoldable pub release_slot : ℕ → M (Unit {0})
  release_slot i = do
    m ← get
    pool ← lift (release env.ndebug pool_size m.connection_pool i)
    modify λ m'. record m' { connection_pool = pool }

  -- A connection to the slot's peer, which is given up if it cannot be started.
  unfoldable pub connect_or_delete : ℕ → M Bool
  connect_or_delete i = do
    started ← initiate_connect env i
    if started then pure true else do delete_peer_connection env i; pure false

  -- The peer of a slot whose address was new to the register, or not.
  abbrev pub try_slot : List ℕ → ℕ → Bool → M Bool
  try_slot addr i true = do
    with_peer i
        λ p. initialize_connection p (key_of_ipv4 addr) Pipv.ipv4 PSource.tracker PState.discovered
    connect_or_delete i
  try_slot addr i false = do release_slot i; pure false

  -- ipv4_peers.try_emplace(addr, slot)
  abbrev pub emplace : List ℕ → ℕ → M Bool
  emplace addr i m =
      let (inserted, old, register) = try_emplace addr i m.ipv4_peers in
      some (inserted, record m { ipv4_peers = register })

  -- One address taken from the cache: whether a connection to it was started.
  unfoldable pub try_discovered : List ℕ → M Bool
  unfolding acquire_slot release_slot connect_or_delete
  try_discovered addr = do
    acquired ← acquire_slot
    assert env (is_some acquired)
    i ← lift acquired
    inserted ← emplace addr i
    try_slot addr i inserted

  abbrev pub try_next : M Bool → Option (List ℕ) → M Bool
  try_next rest none = pure false
  try_next rest (some addr) = or_else (try_discovered addr) rest

  -- The loop over the cache. Each round takes an address off, so the number of addresses bounds the
  -- rounds, and none is left when it has run down.
  unfoldable pub discovered_loop : ℕ → M Bool
  discovered_loop zero = pure false
  discovered_loop (suc k) = do addr ← pop_fresh; try_next (discovered_loop k) addr

  unfoldable pub discovered_peer_scheduler : M Bool
  discovered_peer_scheduler = do
    m ← get
    if available m.connection_pool == 0 then pure false else discovered_loop m.cache.size

  abbrev pub gone : Perrno → Bool
  gone peer_shutdown = true
  gone e = false

  abbrev pub retire : ℕ → M Bool
  retire i = do delete_peer_connection env i; pure false

  abbrev pub reconnect : ℕ → M Bool
  reconnect i = do
    with_peer i λ p. record p { failures = add_size p.failures 1 }
    connect_or_delete i

  abbrev pub stale : Manager → DisconnectUpdate → Bool
  stale m update = not (generation m.connection_pool update.peer == update.generation)

  -- A peer that is gone for good is given up, as is one that a server socket brought.
  abbrev pub retire_or_reconnect : ℕ → M Bool
  retire_or_reconnect i = do
    p ← get_peer i
    if gone p.tcp.perrno || is_server p.source then retire i else reconnect i

  -- A notice that is not about an earlier use of the slot.
  abbrev pub try_notice : ℕ → M Bool
  try_notice i = do
    with_peer i λ p. record p { state = PState.disconnected }
    modify (set_statistics decrement_connected_bittorrent_peers)
    retire_or_reconnect i

  -- One notice of a disconnected peer.
  unfoldable pub try_disconnected : DisconnectUpdate → M Bool
  unfolding connect_or_delete
  try_disconnected update = do
    m ← get
    if stale m update then pure false else try_notice update.peer

  unfoldable pub disconnected_loop : List DisconnectUpdate → M Bool
  disconnected_loop [] = pure false
  disconnected_loop (update ∷ later) = do
    modify λ m. record m { disconnects = later }
    or_else (try_disconnected update) (disconnected_loop later)

  unfoldable pub disconnected_peer_scheduler : M Bool
  unfolding disconnected_loop
  disconnected_peer_scheduler = do m ← get; disconnected_loop m.disconnects

  -- One failed peer whose retry time has come.
  unfoldable pub try_failed : PeerFailureUpdate → M Bool
  unfolding connect_or_delete
  try_failed update = do
    m ← get
    if not (generation m.connection_pool update.connection == update.cached_generation)
        then pure false
        else connect_or_delete update.connection

  unfoldable pub failed_loop : List PeerFailureUpdate → M Bool
  failed_loop [] = pure false
  failed_loop (update ∷ later) = do
    modify λ m. record m { retry_queue = later }
    or_else (try_failed update) (failed_loop later)

  unfoldable pub failed_peer_scheduler : M Bool
  unfolding failed_loop
  failed_peer_scheduler = do m ← get; failed_loop m.retry_queue

  -- The handler whose turn it is.
  unfoldable pub run_spot : Spot → M Bool
  run_spot discovered = discovered_peer_scheduler
  run_spot disconnected = disconnected_peer_scheduler
  run_spot failed = failed_peer_scheduler

  unfoldable pub drain_discovered : M (Unit {0})
  drain_discovered = do
    m ← get
    modify λ m'. record m' { discoveries = []; cache = push_all m'.discoveries m'.cache }
    if has_met_connection_quota m.statistics || available m.connection_pool == 0
        then pure tt
        else send_notification

unfoldable pub notify_disconnected : M (Unit {0})
notify_disconnected = send_notification
