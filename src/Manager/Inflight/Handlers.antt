-- ===== src/Manager/Inflight/Handlers.antt =====
-- The three handlers of the scheduler, counted.
use bittorrent_application_l.Base.{
  ℕ, zero, suc, ◌<◌, ◌≡◌, refl, Bool, true, false, not, ◌==◌, List, [], ◌∷◌, Option, none, some,
  arith, Bool-cases, inl, inr, ◌||◌,
}
use bittorrent_application_l.SlotPool.{release, available, generation}
use bittorrent_application_l.Peer.Socket.{
  ConnectResult, inprogress, failed_connect, connected, open_socket, pconnect, Tcp,
}
use bittorrent_application_l.Peer.Connection.{
  PeerConnection, Pipv, Events, ev_write_only, teardown_connection,
}
use bittorrent_application_l.Manager.State.{
  Manager, M, pure, ◌>>◌, modify, get, lift, when, Env, ask, assert, get_peer, set_peer, find_slot,
  set_statistics, decrement_connected_bittorrent_peers, max_inbound_inflight, pool_size, Statistics,
  Spot, discovered, disconnected, failed, DisconnectUpdate, PeerFailureUpdate,
}
use bittorrent_application_l.Manager.Connecting.{
  with_peer, is_server, modify_peer_socket_w_event, arm_connection_watchers, deregister_from_map,
  delete_peer_connection, resolved, attempt, connect, initiate_connect,
}
use bittorrent_application_l.Manager.Scheduler.{
  or_else, pop_fresh, acquire_slot, is_some, release_slot, connect_or_delete, try_slot, emplace,
  try_next, try_discovered, discovered_loop, discovered_peer_scheduler, try_disconnected,
  disconnected_loop, disconnected_peer_scheduler, try_failed, gone, retire, reconnect, stale,
  retire_or_reconnect, try_notice, failed_loop, failed_peer_scheduler, run_spot,
}
use bittorrent_application_l.Manager.Inflight.Quiet.{
  Quiet, Starts, Alike, Quiet-pure, Quiet-bind, Quiet-lift, Quiet-assert, Starts-bind,
  Starts-modify, Starts-if, Starts-nothing, Starts-else,
}

pub Quiet-get : Quiet get
unfolding get
Quiet-get m = (refl, refl)

pub Quiet-get_peer : (i : ℕ) → Quiet (get_peer i)
unfolding get_peer
Quiet-get_peer i m = Quiet-lift (find_slot m.connection_pool.pool i) m

pub Quiet-set_peer : (i : ℕ) (p : PeerConnection) → Quiet (set_peer i p)
unfolding set_peer
Quiet-set_peer i p m = (refl, refl)

pub Quiet-ask : {A : Type 0} (answers : ℕ → A) → Quiet (ask answers)
unfolding ask
Quiet-ask answers m = (refl, refl)

pub Quiet-with_peer : (i : ℕ) (f : PeerConnection → PeerConnection) → Quiet (with_peer i f)
Quiet-with_peer i f =
    Quiet-bind (get_peer i) (λ p. set_peer i (f p)) (Quiet-get_peer i) (λ p. Quiet-set_peer i (f p))

pub Quiet-arm : (i : ℕ) (event : Events) → Quiet (arm_connection_watchers i event)
unfolding arm_connection_watchers modify_peer_socket_w_event
Quiet-arm i event = Quiet-bind _ _ (Quiet-with_peer i _) (λ _. Quiet-with_peer i _)

module _ (env : Env) where
  Quiet-deregister_at :
      (p : PeerConnection) (v : Pipv) → p.ipv ≡ v → Quiet (deregister_from_map env p)
  unfolding deregister_from_map
  Quiet-deregister_at p Pipv.ipv6 e = rw (deregister_from_map, e) λ m. (refl, refl)
  Quiet-deregister_at p Pipv.null e = rw (deregister_from_map, e) (Quiet-assert env false)
  Quiet-deregister_at p Pipv.ipv4 e = rw (deregister_from_map, e) λ m. (refl, refl)
  Quiet-deregister_at p Pipv.ipv4maskedv6 e = rw (deregister_from_map, e) λ m. (refl, refl)

  Quiet-deregister : (p : PeerConnection) → Quiet (deregister_from_map env p)
  Quiet-deregister p = Quiet-deregister_at p p.ipv refl

  pub Quiet-delete : (i : ℕ) → Quiet (delete_peer_connection env i)
  unfolding delete_peer_connection
  Quiet-delete i = Quiet-bind _ _ (Quiet-get_peer i) λ p. Quiet-bind _ _ (Quiet-deregister p) λ _.
      Quiet-bind _ _ (Quiet-lift (teardown_connection env.ndebug p)) λ p'.
        Quiet-bind _ _ (Quiet-set_peer i p') λ _. Quiet-bind _ _ Quiet-get λ (m : Manager).
          Quiet-bind _ _ (Quiet-lift (release env.ndebug pool_size m.connection_pool i))
            λ pool. λ m'. (refl, refl)

  Quiet-release_slot : (i : ℕ) → Quiet (release_slot env i)
  unfolding release_slot
  Quiet-release_slot i = Quiet-bind _ _ Quiet-get λ (m : Manager).
      Quiet-bind _ _ (Quiet-lift (release env.ndebug pool_size m.connection_pool i))
        λ pool. λ m'. (refl, refl)

  Quiet-resolved : (i : ℕ) (resolve : ConnectResult) → Quiet (resolved env i resolve)
  Quiet-resolved i failed_connect = Quiet-bind _ _ (Quiet-with_peer i _) λ _. Quiet-pure false
  Quiet-resolved i connected =
      Quiet-bind _ _ (Quiet-arm i ev_write_only)
        λ _. Quiet-bind _ _ (Quiet-with_peer i _) λ _. Quiet-pure true
  Quiet-resolved i inprogress = Quiet-bind _ _ (Quiet-arm i ev_write_only) λ _. Quiet-pure true

  Quiet-attempt :
      (i : ℕ) (p : PeerConnection) (made : Bool) (tcp : Tcp) → Quiet (attempt env i p made tcp)
  Quiet-attempt i p false tcp = Quiet-pure false
  Quiet-attempt i p true tcp = Quiet-bind _ _ (Quiet-ask env.connections) λ answers.
      Quiet-bind _ _ (Quiet-lift (pconnect answers tcp p.store.family))
        λ (resolve, tcp'). Quiet-bind _ _ (Quiet-set_peer i _) λ _. Quiet-resolved i resolve

  pub Quiet-connect : (i : ℕ) → Quiet (connect env i)
  unfolding connect
  Quiet-connect i = Quiet-bind _ _ (Quiet-get_peer i) λ p. Quiet-bind _ _ (Quiet-assert env _) λ _.
      Quiet-bind _ _ (Quiet-ask env.sockets) λ opening.
        Quiet-bind _ _ (Quiet-lift (open_socket opening p.tcp p.store.family))
          λ (made, tcp). Quiet-bind _ _ (Quiet-set_peer i _) λ _. Quiet-attempt i p made tcp

Quiet-pop_fresh : Quiet pop_fresh
unfolding pop_fresh
Quiet-pop_fresh m = (refl, refl)

pub Quiet-acquire_slot : Quiet acquire_slot
unfolding acquire_slot
Quiet-acquire_slot m = (refl, refl)

Quiet-emplace : (env : Env) (addr : List ℕ) (i : ℕ) → Quiet (emplace env addr i)
Quiet-emplace env addr i m = (refl, refl)

decrement-Alike : (m : Manager) → Alike m (set_statistics decrement_connected_bittorrent_peers m)
unfolding decrement_connected_bittorrent_peers
decrement-Alike m = elim (Bool-cases (m.statistics.connected_bittorrent_peers == 0)) [
  | inl none_left ↦ rw (decrement_connected_bittorrent_peers, none_left) (refl, refl)
  | inr some_left ↦ rw (decrement_connected_bittorrent_peers, some_left) (refl, refl)
]

-- What the program leaves undefined: a start counts one more inbound connection in flight.
abbrev pub Increments : Env → Type 0
Increments env =
    (s : Statistics)
    → s.inbound_inflight < max_inbound_inflight
    → (env.increment_inbound_inflight s).inbound_inflight ≡ suc s.inbound_inflight

module _ (env : Env) (incr : Increments env) where
  Starts-counted :
      (done : Bool)
      → Starts (when done (modify (set_statistics env.increment_inbound_inflight)) >> pure done)
  Starts-counted true m room = (omega (arith, incr m.statistics room), refl)
  Starts-counted false m room = (refl, refl)

  Starts-initiate_connect : (i : ℕ) → Starts (initiate_connect env i)
  unfolding initiate_connect
  Starts-initiate_connect i = Starts-bind _ _ (Quiet-get_peer i) λ p.
      Starts-bind _ _ (Quiet-assert env _)
        λ _. Starts-bind _ _ (Quiet-connect env i) λ done. Starts-counted done

  Starts-connect_or_delete : (i : ℕ) → Starts (connect_or_delete env i)
  unfolding connect_or_delete
  Starts-connect_or_delete i =
      Starts-else (initiate_connect env i) _ (Starts-initiate_connect i)
        (Starts-bind _ _ (Quiet-delete env i) λ _. Starts-nothing)

  Starts-try_slot :
      (addr : List ℕ) (i : ℕ) (inserted : Bool) → Starts (try_slot env addr i inserted)
  Starts-try_slot addr i true =
      Starts-bind _ _ (Quiet-with_peer i _) λ _. Starts-connect_or_delete i
  Starts-try_slot addr i false = Starts-bind _ _ (Quiet-release_slot env i) λ _. Starts-nothing

  Starts-try_discovered : (addr : List ℕ) → Starts (try_discovered env addr)
  unfolding try_discovered
  Starts-try_discovered addr = Starts-bind acquire_slot _ Quiet-acquire_slot λ acquired.
      Starts-bind (assert env (is_some acquired)) _ (Quiet-assert env (is_some acquired)) λ _.
        Starts-bind (lift acquired) _ (Quiet-lift acquired) λ i.
          Starts-bind (emplace env addr i) (try_slot env addr i) (Quiet-emplace env addr i)
            (Starts-try_slot addr i)

  Starts-try_next :
      (rest : M Bool) (addr : Option (List ℕ)) → Starts rest → Starts (try_next env rest addr)
  Starts-try_next rest none h = Starts-nothing
  Starts-try_next rest (some addr) h =
      Starts-else (try_discovered env addr) rest (Starts-try_discovered addr) h

  Starts-discovered_loop : (k : ℕ) → Starts (discovered_loop env k)
  unfolding discovered_loop
  Starts-discovered_loop zero = Starts-nothing
  Starts-discovered_loop (suc k) =
      Starts-bind _ _ Quiet-pop_fresh
        λ addr. Starts-try_next (discovered_loop env k) addr (Starts-discovered_loop k)

  Starts-try_failed : (update : PeerFailureUpdate) → Starts (try_failed env update)
  unfolding try_failed
  Starts-try_failed update = Starts-bind _ _ Quiet-get λ (m : Manager).
      Starts-if (not (generation m.connection_pool update.connection == update.cached_generation))
        (pure false) (connect_or_delete env update.connection) Starts-nothing
        (Starts-connect_or_delete update.connection)

  Starts-retire_or_reconnect : (i : ℕ) → Starts (retire_or_reconnect env i)
  Starts-retire_or_reconnect i = Starts-bind _ _ (Quiet-get_peer i) λ p.
      Starts-if (gone env p.tcp.perrno || is_server p.source) (retire env i) (reconnect env i)
        (Starts-bind _ _ (Quiet-delete env i) λ _. Starts-nothing)
        (Starts-bind _ _ (Quiet-with_peer i _) λ _. Starts-connect_or_delete i)

  Starts-try_notice : (i : ℕ) → Starts (try_notice env i)
  Starts-try_notice i = Starts-bind _ _ (Quiet-with_peer i _) λ _.
      Starts-modify (set_statistics decrement_connected_bittorrent_peers)
        (retire_or_reconnect env i) decrement-Alike (Starts-retire_or_reconnect i)

  Starts-try_disconnected : (update : DisconnectUpdate) → Starts (try_disconnected env update)
  unfolding try_disconnected
  Starts-try_disconnected update = Starts-bind _ _ Quiet-get λ m.
      Starts-if (stale env m update) (pure false) (try_notice env update.peer) Starts-nothing
        (Starts-try_notice update.peer)

  Starts-disconnected_loop :
      (updates : List DisconnectUpdate) → Starts (disconnected_loop env updates)
  unfolding disconnected_loop
  Starts-disconnected_loop [] = Starts-nothing
  Starts-disconnected_loop (update ∷ later) =
      Starts-modify (λ m. record m { disconnects = later })
        (or_else (try_disconnected env update) (disconnected_loop env later)) (λ m. (refl, refl))
        (Starts-else (try_disconnected env update) (disconnected_loop env later)
          (Starts-try_disconnected update) (Starts-disconnected_loop later))

  Starts-failed_loop : (updates : List PeerFailureUpdate) → Starts (failed_loop env updates)
  unfolding failed_loop
  Starts-failed_loop [] = Starts-nothing
  Starts-failed_loop (update ∷ later) =
      Starts-modify (λ m. record m { retry_queue = later })
        (or_else (try_failed env update) (failed_loop env later)) (λ m. (refl, refl))
        (Starts-else (try_failed env update) (failed_loop env later) (Starts-try_failed update)
          (Starts-failed_loop later))

  -- Every handler of the scheduler.
  pub Starts-run_spot : (s : Spot) → Starts (run_spot env s)
  unfolding run_spot discovered_peer_scheduler disconnected_peer_scheduler failed_peer_scheduler
  Starts-run_spot discovered = Starts-bind _ _ Quiet-get λ (m : Manager).
      Starts-if (available m.connection_pool == 0) (pure false) (discovered_loop env m.cache.size)
        Starts-nothing (Starts-discovered_loop m.cache.size)
  Starts-run_spot disconnected =
      Starts-bind _ _ Quiet-get λ (m : Manager). Starts-disconnected_loop m.disconnects
  Starts-run_spot failed =
      Starts-bind _ _ Quiet-get λ (m : Manager). Starts-failed_loop m.retry_queue
