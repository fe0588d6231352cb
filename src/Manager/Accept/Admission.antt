-- ===== src/Manager/Accept/Admission.antt =====
-- What an accepted connection leaves in the pool, the register and the counters.
use bittorrent_application_l.Base.{
  ℕ, suc, ◌≡◌, refl, sym, ap, subst, ◌∙◌, Bool, true, false, List, ◌∷◌, ◌++◌, none, some, replicate,
  length, ◌==◌, ◌||◌, set, arith, ==-false,
}
use bittorrent_application_l.Handshake.RoundTrip.{equal_self}
use bittorrent_application_l.SlotPool.{acquire, available}
use bittorrent_application_l.Peer.Socket.{inet}
use bittorrent_application_l.Peer.Connection.{
  PeerConnection, PState, PSource, Pipv, SockStore, ev_read_only, ipv4_key, initialize_connection,
}
use bittorrent_application_l.Manager.State.{
  Manager, M, pure, ◌>>◌, get, lift, Env, ask, accepted, Register, lookup, try_emplace,
  set_statistics, increment_outbound_inflight, connect_timeout,
}
use bittorrent_application_l.Manager.Connecting.{
  with_peer, modify_peer_socket_w_event, arm_connection_watchers,
}
use bittorrent_application_l.Manager.Scheduler.{acquire_slot}
use bittorrent_application_l.Manager.Accept.{
  peer_address, register_slot, admit, accept_peer_connection, initialize_server_specifics, settle,
  make_way, after_accept,
}
use bittorrent_application_l.Manager.Accept.Yields.{
  Yields, Yields-step, with_peer-Peer, Yields-with_peer, Yields-if_false, after_check,
}
use bittorrent_application_l.Manager.Accounting.{Peer, put_peer, find_slot-store_slot}

abbrev watched : PeerConnection → PeerConnection
watched p = record p {
  listener = record p.listener {
    sock_active = true;
    sock_fd = p.tcp.socket;
    sock_events = ev_read_only;
  };
}

abbrev timed : PeerConnection → PeerConnection
timed p = record p {
  listener = record p.listener { timer_active = true; timer_after = connect_timeout };
}

arm-Peer :
    (i : ℕ) (m : Manager) (p : PeerConnection)
    → Peer i m p
    → arm_connection_watchers i ev_read_only m
      ≡ some (tt, put_peer i (timed (watched p)) (put_peer i (watched p) m))
unfolding arm_connection_watchers modify_peer_socket_w_event
arm-Peer i m p e =
    ap (λ o. ((λ (_ : Manager). o) >> with_peer i timed) m) (with_peer-Peer i watched m p e)
    ∙ with_peer-Peer i timed (put_peer i (watched p) m) (watched p)
        (find_slot-store_slot m.connection_pool.pool i p (watched p) e)

or_true : (b : Bool) → (b || true) ≡ true
or_true true = refl
or_true false = refl

-- The pool and the register after the slot is taken and listed.
abbrev taken_slot : ℕ → List ℕ → Manager → Manager
taken_slot i rest m = record m {
  connection_pool = record m.connection_pool {
    available_slots = rest;
    occupied = set m.connection_pool.occupied i true;
  };
}

abbrev listed_as : List ℕ → ℕ → Manager → Manager
listed_as key i m = record m { ipv4_peers = (key, i) ∷ m.ipv4_peers }

acquire_slot-taken :
    (i : ℕ) (rest : List ℕ) (m : Manager)
    → m.connection_pool.available_slots ≡ i ∷ rest
    → acquire_slot m ≡ some (some i, taken_slot i rest m)
unfolding acquire_slot acquire
acquire_slot-taken i rest m e = rw (acquire_slot, acquire, e) refl

lookup-listed : (key : List ℕ) (i : ℕ) (r : Register) → lookup key ((key, i) ∷ r) ≡ some i
unfolding lookup
lookup-listed key i r = rw (lookup, equal_self key) refl

register_slot-listed :
    (key : List ℕ) (i : ℕ) (m : Manager)
    → lookup (ipv4_key key) m.ipv4_peers ≡ none
    → register_slot Pipv.ipv4 key i m ≡ some ((true, i), listed_as (ipv4_key key) i m)
unfolding register_slot try_emplace
register_slot-listed key i m e = rw (register_slot, try_emplace, e) refl

-- An IPv4 peer of six bytes of address and port.
abbrev pub v4_key : SockStore → List ℕ
v4_key store = store.addr ++ (store.port ++ replicate 12 0)

peer_address-v4 :
    (store : SockStore) → store.family ≡ inet → peer_address store ≡ some (Pipv.ipv4, v4_key store)
unfolding peer_address
peer_address-v4 store e = rw (peer_address, e) refl

-- The peer as it stands in its slot afterwards.
abbrev pub admitted : PeerConnection → ℕ → SockStore → PeerConnection
admitted p fd store = record p {
  tcp = record p.tcp { socket = some fd };
  store = store;
  listener = record p.listener {
    attached = true;
    sock_active = true;
    sock_fd = some fd;
    sock_events = ev_read_only;
    timer_active = true;
    timer_after = connect_timeout;
  };
  key = v4_key store;
  state = PState.handshake;
  source = PSource.tcp_server;
  ipv = Pipv.ipv4;
}

module _ (env : Env) (fd i : ℕ) (store : SockStore) (rest : List ℕ) (m : Manager)
    (p : PeerConnection) where
  abbrev pub Admitted : Bool → Manager → Type 0
  Admitted started m' =
      (started ≡ true)
      × Peer i m' (admitted p fd store)
      × (lookup (ipv4_key (v4_key store)) m'.ipv4_peers ≡ some i)
      × (m'.connection_pool.available_slots ≡ rest)
      × (m'.statistics ≡ increment_outbound_inflight m.statistics)

  -- The last steps, from a state where the slot is taken and registered.
  finish :
      (n : Manager)
      → Peer i n p
      → lookup (ipv4_key (v4_key store)) n.ipv4_peers ≡ some i
      → n.connection_pool.available_slots ≡ rest
      → n.statistics ≡ increment_outbound_inflight m.statistics
      → Yields Admitted (settle env (Pipv.ipv4, v4_key store) i fd store n)
  unfolding initialize_server_specifics initialize_connection
  finish n here listed free counted = Yields-with_peer Admitted i fresh _ n p here λ e1.
      Yields-with_peer Admitted i served _ n1 (fresh p) e1 λ e2.
        Yields-step Admitted (arm_connection_watchers i ev_read_only) (λ _. pure true) n2 tt n3
          (arm-Peer i n2 p2 e2)
          (
            true,
            n3,
            refl,
            (
              refl,
              find_slot-store_slot _ i (watched p2) _ (find_slot-store_slot _ i p2 (watched p2) e2),
              listed,
              free,
              counted,
            ),
          )
    where
      fresh : PeerConnection → PeerConnection
      fresh q = initialize_connection q (v4_key store) Pipv.ipv4 PSource.tcp_server PState.handshake

      served : PeerConnection → PeerConnection
      served q = record q { tcp = record q.tcp { socket = some fd }; store = store }

      p2 : PeerConnection
      p2 = served (fresh p)

      n1 : Manager
      n1 = put_peer i (fresh p) n

      n2 : Manager
      n2 = put_peer i p2 n1

      n3 : Manager
      n3 = put_peer i (timed (watched p2)) (put_peer i (watched p2) n2)

  -- An IPv4 peer that the register does not know, when a slot is free: the accept succeeds, and
  -- afterwards the freed slot holds a peer in its handshake, from the server socket, with the accepted
  -- socket and address, watched for reading and timed; the register has the slot under the peer's key;
  -- the slot is no longer available; one more outbound connection is in flight.
  pub accept-Admitted :
      env.accepts m.calls ≡ accepted fd store
      → store.family ≡ inet
      → m.connection_pool.available_slots ≡ i ∷ rest
      → Peer i m p
      → lookup (ipv4_key (v4_key store)) m.ipv4_peers ≡ none
      → Yields Admitted (accept_peer_connection env m)
  unfolding accept_peer_connection admit ask get available
  accept-Admitted answer family free here unknown =
      subst (λ a. Yields Admitted (after_accept env a m1)) (sym answer)
        (Yields-if_false Admitted (available m.connection_pool == 0) (pure false)
          (admit env fd store) m1
          (ap (λ xs. length xs == 0) free ∙ ==-false (length (i ∷ rest)) 0 (omega arith))
          (Yields-step Admitted (lift (peer_address store)) _ m2 (Pipv.ipv4, v4_key store) m2
            (ap (λ o. lift o m2) (peer_address-v4 store family))
            (Yields-step Admitted acquire_slot _ m2 (some i) m3 (acquire_slot-taken i rest m2 free)
              (after_check Admitted (env.ndebug || true) _ m3 (or_true env.ndebug) (
                Yields-step Admitted (register_slot Pipv.ipv4 (v4_key store) i) after m3 (true, i)
                  m4 (register_slot-listed (v4_key store) i m3 unknown)
                  (finish m4 here (lookup-listed (ipv4_key (v4_key store)) i m3.ipv4_peers) refl
                    refl))))))
    where
      m1 : Manager
      m1 = record m { calls = suc m.calls }

      m2 : Manager
      m2 = set_statistics increment_outbound_inflight m1

      m3 : Manager
      m3 = taken_slot i rest m2

      after : Bool × ℕ → M Bool
      after registered =
          make_way env Pipv.ipv4 (v4_key store) i registered
          >> settle env (Pipv.ipv4, v4_key store) i fd store

      m4 : Manager
      m4 = listed_as (ipv4_key (v4_key store)) i m3
