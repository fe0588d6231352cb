-- ===== src/Manager/GivingUp.antt =====
-- How a peer is given up past the quota: peer_socket_callback and delete_peer_connection of
-- src/Client/PeerConnectionManager.cpp.
use bittorrent_application_l.Base.{
  ℕ, zero, suc, ◌≡◌, refl, ap, ◌∙◌, Bool, true, false, not, ◌||◌, ltb, if◌then◌else◌, List, [], ◌∷◌,
  none, some, get_or, set, replicate,
}
use bittorrent_application_l.RingBuffer.{reset}
use bittorrent_application_l.SlotPool.{Slot, release}
use bittorrent_application_l.SlotPool.Ownership.{objects_of, release-kept}
use bittorrent_application_l.Peer.Connection.{
  PeerConnection, PState, PSource, Pipv, Events, ipv4_key, teardown_connection, is_closed, no_store,
  stop,
}
use bittorrent_application_l.Manager.State.{
  Manager, M, get, lift, Env, get_peer, set_peer, find_slot, erase, has_met_connection_quota,
  pool_size, Register,
}
use bittorrent_application_l.Manager.Connecting.{deregister_from_map, delete_peer_connection}
use bittorrent_application_l.Manager.Callbacks.{peer_socket_callback, is_connected}
use bittorrent_application_l.Manager.Accounting.{
  Peer, put_peer, find_slot-store_slot, get_peer-Peer,
}
use bittorrent_application_l.Manager.Accept.Yields.{Yields, Yields-step, after_check}

abbrev pub is_known : Pipv → Bool
is_known Pipv.null = false
is_known v = true

-- The assertions on the way to giving a peer up hold or are compiled out: that it is not connected,
-- that it has an address family, that its socket is closed, and that its slot is held.
pub record Passes (env : Env) (i : ℕ) (m : Manager) (p : PeerConnection) : Type 0 where
  pub unconnected : (env.ndebug || not (is_connected p.state)) ≡ true
  pub known : (env.ndebug || is_known p.ipv) ≡ true
  pub closed : (env.ndebug || is_closed p.tcp.socket) ≡ true
  pub inside : (env.ndebug || ltb i pool_size) ≡ true
  pub held : (env.ndebug || get_or m.connection_pool.occupied i false) ≡ true

-- The registers without the peer's key.
abbrev pub left_ipv4 : PeerConnection → Register → Register
left_ipv4 p r = elim p.ipv [
  | Pipv.ipv6 ↦ r
  | Pipv.null ↦ r
  | Pipv.ipv4 ↦ erase (ipv4_key p.key) r
  | Pipv.ipv4maskedv6 ↦ erase (ipv4_key p.key) r
]

abbrev pub left_ipv6 : PeerConnection → Register → Register
left_ipv6 p r = elim p.ipv [
  | Pipv.ipv6 ↦ erase p.key r
  | Pipv.null ↦ r
  | Pipv.ipv4 ↦ r
  | Pipv.ipv4maskedv6 ↦ r
]

-- The peer is off its register and its slot is free; it is the null peer, but its socket, if it has
-- one, is still open. The counters are as they were.
pub record GivenUp (i : ℕ) (m : Manager) (p : PeerConnection) (done : Unit {0}) (m' : Manager)
    : Type 0 where
  pub statistics : m'.statistics ≡ m.statistics
  pub free : m'.connection_pool.available_slots ≡ i ∷ m.connection_pool.available_slots
  pub flags : m'.connection_pool.occupied ≡ set m.connection_pool.occupied i false
  pub ipv4_peers : m'.ipv4_peers ≡ left_ipv4 p m.ipv4_peers
  pub ipv6_peers : m'.ipv6_peers ≡ left_ipv6 p m.ipv6_peers
  pub peer : PeerConnection
  pub in_slot : Peer i m' peer
  pub state : peer.state ≡ PState.null
  pub source : peer.source ≡ PSource.null
  pub unwatched_now : (peer.listener.sock_active ≡ false) × (peer.listener.timer_active ≡ false)
  pub socket : peer.tcp ≡ p.tcp

find_slot-objects :
    (xs ys : List (Slot PeerConnection)) (i : ℕ)
    → objects_of xs ≡ objects_of ys
    → find_slot xs i ≡ find_slot ys i
unfolding find_slot objects_of
find_slot-objects [] [] i e = refl
find_slot-objects [] (y ∷ ys) i e = cc
find_slot-objects (x ∷ xs) [] i e = cc
find_slot-objects (x ∷ xs) (y ∷ ys) zero e = cc
find_slot-objects (x ∷ xs) (y ∷ ys) (suc i) e = find_slot-objects xs ys i cc

unlisted : PeerConnection → Manager → Manager
unlisted p m = record m {
  ipv4_peers = left_ipv4 p m.ipv4_peers;
  ipv6_peers = left_ipv6 p m.ipv6_peers;
}

module _ (env : Env) (i : ℕ) (m : Manager) (p : PeerConnection) (passes : Passes env i m p) where
  deregister_at : (v : Pipv) → p.ipv ≡ v → deregister_from_map env p m ≡ some (tt, unlisted p m)
  unfolding deregister_from_map unlisted
  deregister_at Pipv.ipv6 e = rw e refl
  deregister_at Pipv.ipv4 e = rw e refl
  deregister_at Pipv.ipv4maskedv6 e = rw e refl
  deregister_at Pipv.null e =
      let d : (env.ndebug || false) ≡ true = rw e at passes.known in rw (e, d) refl

  torn_down :
      (q : PeerConnection) × (teardown_connection env.ndebug p ≡ some q)
      × (q.state ≡ PState.null)
      × (q.source ≡ PSource.null)
      × ((q.listener.sock_active ≡ false) × (q.listener.timer_active ≡ false))
      × (q.tcp ≡ p.tcp)
  unfolding teardown_connection
  torn_down = (torn, rw passes.closed refl, refl, refl, (refl, refl), refl)
    where
      torn : PeerConnection
      torn = record {
        tcp = p.tcp;
        store = no_store;
        recv_buffer = reset p.recv_buffer;
        send_buffer = reset p.send_buffer;
        listener = record (stop p.listener) { sock_fd = none; attached = false };
        key = replicate 18 0;
        peer_id = replicate 20 0;
        state = PState.null;
        source = PSource.null;
        ipv = Pipv.null;
        outgoing_frame_cursor = record { cursor = 0 };
        failures = 0;
      }

  delete-GivenUp : Peer i m p → Yields (GivenUp i m p) (delete_peer_connection env i m)
  unfolding delete_peer_connection get set_peer unlisted
  delete-GivenUp e =
      let (q, t, null_state, null_source, off, tcp) = torn_down in
      let stored = put_peer i q (unlisted p m) in
      let (pool, r, free, flags, objects) =
        release-kept pool_size env.ndebug stored.connection_pool i passes.inside passes.held in
      Yields-step (GivenUp i m p) (get_peer i) _ m p m (get_peer-Peer i m p e) (
        Yields-step (GivenUp i m p) (deregister_from_map env p) _ m tt (unlisted p m)
          (deregister_at p.ipv refl)
          (Yields-step (GivenUp i m p) (lift (teardown_connection env.ndebug p)) _ (unlisted p m) q
            (unlisted p m) (ap (λ o. lift o (unlisted p m)) t)
            (Yields-step (GivenUp i m p)
              (lift (release env.ndebug pool_size stored.connection_pool i)) _ stored pool stored
              (ap (λ o. lift o stored) r)
              (
                tt,
                record stored { connection_pool = pool },
                refl,
                record {
                  statistics = refl;
                  free = free;
                  flags = flags;
                  ipv4_peers = refl;
                  ipv6_peers = refl;
                  peer = q;
                  in_slot =
                      find_slot-objects pool.pool stored.connection_pool.pool i objects
                      ∙ find_slot-store_slot m.connection_pool.pool i p q e;
                  state = null_state;
                  source = null_source;
                  unwatched_now = off;
                  socket = tcp;
                },
              ))))

Yields-if_true :
    {A : Type 0} (Q : A → Manager → Type 0) (b : Bool) (s t : M A) (m : Manager)
    → b ≡ true
    → Yields Q (s m)
    → Yields Q ((if b then s else t) m)
Yields-if_true Q true s t m e h = h
Yields-if_true Q false s t m e h = cc

-- Past the quota of connected peers, if no assertion fails, any event of a socket gives its peer up:
-- it is taken off its register and its slot is freed, its socket stays as it is, and every counter is as
-- it was, the one that counted the peer as in flight included.
pub quota-GivenUp :
    (env : Env) (i : ℕ) (handshake info_hash : List ℕ) (event : Events) (m : Manager)
    (p : PeerConnection)
    → Peer i m p
    → has_met_connection_quota m.statistics ≡ true
    → Passes env i m p
    → Yields (GivenUp i m p) (peer_socket_callback env handshake info_hash i event m)
unfolding peer_socket_callback get
quota-GivenUp env i handshake info_hash event m p e quota passes =
    Yields-step (GivenUp i m p) (get_peer i) _ m p m (get_peer-Peer i m p e) (
      after_check (GivenUp i m p) (env.ndebug || not (is_connected p.state)) _ m passes.unconnected
        (Yields-if_true (GivenUp i m p) (has_met_connection_quota m.statistics)
          (delete_peer_connection env i) _ m quota (delete-GivenUp env i m p passes e)))
