-- ===== src/Manager/Tests.antt =====
-- A manager with a pool of two slots, and the theorems there.
use mathlib.Core.Option
use bittorrent_application_l.Base.{
  ◌≡◌, ◌≢◌, refl, true, false, ◌||◌, ◌==◌, if◌then◌else◌, [], ◌∷◌, ◌++◌, none, some, arith,
  replicate, add_size,
}
use bittorrent_application_l.RingBuffer.{RingBuffer}
use bittorrent_application_l.RingBuffer.Fifo.{contents}
use bittorrent_application_l.Handshake.{equal, decode}
use bittorrent_application_l.OverwritableCache.{fresh_pop, minus_mask}
use bittorrent_application_l.SlotPool.{available, acquire}
use bittorrent_application_l.Peer.Socket.{
  eafnosupport, unspec, inet, returned, failed, received, no_error, fresh_tcp, eagain, open_socket,
  pconnect, retry,
}
use bittorrent_application_l.Peer.Connection.{
  PeerConnection, PState, PSource, Pipv, SockStore, ev_read_only, is_closed, initialize_connection,
  Watchers, no_store,
}
use bittorrent_application_l.Manager.State.{
  Manager, Env, pending_nothing, discovered, accepted, has_met_connection_quota, lookup, find_slot,
  get, get_peer, set_peer, ask, store_slot, try_emplace,
}
use bittorrent_application_l.Manager.Connecting.{handle_peer_failure, initiate_connect}
use bittorrent_application_l.Manager.Scheduler.{
  run_spot, discovered_peer_scheduler, disconnected_peer_scheduler, failed_peer_scheduler,
  discovered_loop, pop_fresh, try_discovered, try_disconnected, drain_discovered, cache_size,
  no_address, key_of_ipv4,
}
use bittorrent_application_l.Manager.RoundRobin.{
  round_robin_establisher_scheduler, mark, plus_mask_current,
}
use bittorrent_application_l.Manager.RoundRobin.Turns.{Ended}
use bittorrent_application_l.Manager.RoundRobin.Marks.{marks}
use bittorrent_application_l.Manager.RoundRobin.Rounds.{
  taken_notice, scheduler-Ended, scheduler-starved,
}
use bittorrent_application_l.Manager.Inflight.Quiet.{Holds}
use bittorrent_application_l.Manager.Inflight.Handlers.{Increments}
use bittorrent_application_l.Manager.Accounting.{
  Peer, resolved_by, handle_peer_failure-Counts, put_peer,
}
use bittorrent_application_l.Manager.Dispatching.{Dispatched, dispatch-Dispatched}
use bittorrent_application_l.Manager.GivingUp.{Passes, GivenUp, quota-GivenUp}
use bittorrent_application_l.Manager.Callbacks.{
  handle_peer_connection_and_dispatch, peer_socket_callback, compute_handshake,
}
use bittorrent_application_l.Manager.Starting.{initiate_connect-none, try_disconnected-No}
use bittorrent_application_l.Manager.Discoveries.{cached, newest, drain_discovered_lem}
use bittorrent_application_l.Manager.Greeting.{decode-compute_handshake}
use bittorrent_application_l.Manager.Accept.{accept_peer_connection}
use bittorrent_application_l.Manager.Accept.Yields.{Yields}
use bittorrent_application_l.Manager.Accept.Admission.{Admitted, accept-Admitted}
use bittorrent_application_l.Manager.Server.{
  Answers, ServerContext, ok, Listens, initialize_server_socket, handle_socket_errno,
  initialize_server_socket-Listens,
}
use bittorrent_application_l.OverwritableCache.Deque
use bittorrent_application_l.RingBuffer.Fifo

abbrev ring : RingBuffer
ring = record { read = 0; write = 0; readable = 0; buffer = replicate 68 0 }

abbrev idle_watchers : Watchers
idle_watchers = record {
  sock_active = false;
  sock_fd = none;
  sock_events = ev_read_only;
  timer_active = false;
  timer_after = 0;
  attached = false;
}

abbrev blank : PeerConnection
blank = record {
  tcp = fresh_tcp;
  store = no_store;
  recv_buffer = ring;
  send_buffer = ring;
  listener = idle_watchers;
  key = replicate 18 0;
  peer_id = replicate 20 0;
  state = PState.null;
  source = PSource.null;
  ipv = Pipv.null;
  outgoing_frame_cursor = record { cursor = 0 };
  failures = 0;
}

-- A tracker's peer on socket 7.
abbrev dialled : PeerConnection
dialled = record blank {
  tcp = record { socket = some 7; perrno = no_error };
  key = key_of_ipv4 (10 ∷ 0 ∷ 0 ∷ 1 ∷ 26 ∷ 225 ∷ []);
  state = PState.discovered;
  source = PSource.tracker;
  ipv = Pipv.ipv4;
}

abbrev m : Manager
m = record {
  statistics = record {
    connected_bittorrent_peers = 3;
    inbound_inflight = 1;
    outbound_inflight = 0;
  };
  connection_pool = record {
    pool =
        record { object = dialled; generation = 0 }
        ∷ record { object = blank; generation = 4 }
        ∷ [];
    available_slots = 1 ∷ [];
    occupied = true ∷ false ∷ [];
  };
  ipv4_peers = (10 ∷ 0 ∷ 0 ∷ 1 ∷ 26 ∷ 225 ∷ [], 0) ∷ [];
  ipv6_peers = [];
  disconnects = [];
  discoveries = (10 ∷ 0 ∷ 0 ∷ 2 ∷ 26 ∷ 225 ∷ []) ∷ [];
  cache = record { cache = replicate 200 no_address; write = 0; read = 0; size = 0 };
  retry_queue = [];
  scheduler = marks discovered false false false false;
  connects = [];
  calls = 0;
}

abbrev store : SockStore
store = record { family = inet; addr = 10 ∷ 0 ∷ 0 ∷ 9 ∷ []; port = 26 ∷ 225 ∷ [] }

abbrev env : Env
env = record {
  ndebug = false;
  sockets = λ _. returned 9 ∷ [];
  connections = λ _. returned 0 ∷ [];
  sends = λ _. failed eagain ∷ [];
  recvs = λ _. received [] ∷ [];
  so_error = λ _. pending_nothing;
  accepts = λ _. accepted 8 store;
  increment_inbound_inflight = λ s. record s { inbound_inflight = add_size s.inbound_inflight 1 };
}

-- Assertions compiled out.
abbrev release_env : Env
release_env = record env { ndebug = true }

increments : Increments release_env
increments s room = omega arith

dialled-Peer : Peer 0 m dialled
unfolding find_slot
dialled-Peer = refl

blank-Peer : Peer 1 m blank
unfolding find_slot
blank-Peer = refl

-- One address is cached, and the system connects at once.
abbrev seeking : Manager
seeking = record m {
  cache = record {
    cache = (10 ∷ 0 ∷ 0 ∷ 2 ∷ 26 ∷ 225 ∷ []) ∷ replicate 199 no_address;
    write = 1;
    read = 0;
    size = 1;
  };
}

-- The scheduler starts a connection to it.
one_started :
    Option.map
      (λ r. r.1.statistics.inbound_inflight)
      (round_robin_establisher_scheduler (run_spot release_env) seeking)
    ≡ some 2
unfolding round_robin_establisher_scheduler run_spot initiate_connect find_slot available get
    get_peer set_peer ask store_slot try_emplace discovered_peer_scheduler
    disconnected_peer_scheduler failed_peer_scheduler fresh_pop minus_mask acquire open_socket
    pconnect fresh_tcp discovered_loop pop_fresh try_discovered initialize_connection retry mark
    plus_mask_current
one_started = refl

scheduler-Ended_example :
    Ended
      (run_spot release_env)
      (taken_notice seeking)
      (round_robin_establisher_scheduler (run_spot release_env) seeking)
scheduler-Ended_example = scheduler-Ended release_env seeking increments

abbrev marked : Manager
marked = record m {
  scheduler = marks discovered true true true true;
  retry_queue = record { connection = 0; cached_generation = 0 } ∷ [];
}

scheduler-starved_example :
    round_robin_establisher_scheduler (run_spot release_env) marked
    ≡ some (true, record marked { scheduler = marks discovered true true true false })
scheduler-starved_example = scheduler-starved release_env marked (omega arith) refl refl

handle_peer_failure-Counts_example :
    Holds
      (λ _ m'. m'.statistics ≡ resolved_by PSource.tracker m.statistics)
      (handle_peer_failure env 0 m)
handle_peer_failure-Counts_example = handle_peer_failure-Counts env 0 m dialled dialled-Peer

dispatch-Dispatched_example :
    Yields (Dispatched 0 m dialled) (handle_peer_connection_and_dispatch env 0 m)
dispatch-Dispatched_example = dispatch-Dispatched env 0 m dialled dialled-Peer

abbrev crowded : Manager
crowded = record m {
  statistics = record {
    connected_bittorrent_peers = 50;
    inbound_inflight = 1;
    outbound_inflight = 0;
  };
}

crowded-quota : has_met_connection_quota crowded.statistics ≡ true
unfolding has_met_connection_quota
crowded-quota = refl

-- With assertions compiled in, of a peer without a socket.
abbrev closed_dialled : PeerConnection
closed_dialled = record dialled { tcp = fresh_tcp }

abbrev crowded_closed : Manager
crowded_closed = put_peer 0 closed_dialled crowded

closed-Passes : Passes env 0 crowded_closed closed_dialled
unfolding is_closed fresh_tcp
closed-Passes = record {
  unconnected = refl;
  known = refl;
  closed = refl;
  inside = refl;
  held = refl;
}

crowded-Passes : Passes release_env 0 crowded dialled
crowded-Passes = record {
  unconnected = refl;
  known = refl;
  closed = refl;
  inside = refl;
  held = refl;
}

quota-GivenUp_example :
    Yields
      (GivenUp 0 crowded dialled)
      (peer_socket_callback release_env [] [] 0 ev_read_only crowded)
quota-GivenUp_example =
    quota-GivenUp release_env 0 [] [] ev_read_only crowded dialled dialled-Peer crowded-quota
      crowded-Passes

initiate_connect-none_example : initiate_connect env 0 m ≡ none
initiate_connect-none_example = initiate_connect-none env 0 m refl

try_disconnected-No_example :
    try_disconnected release_env (record { peer = 0; generation = 0; perrno = no_error }) m
    ≢ some (true, m)
try_disconnected-No_example =
    try_disconnected-No release_env (record { peer = 0; generation = 0; perrno = no_error }) 7 m m
      dialled dialled-Peer refl

m-cache : Deque.IsValid cache_size m.cache
m-cache = record {
  small = omega arith;
  storage = refl;
  read_in = omega arith;
  size_in = omega arith;
  write_at_end = refl;
}

drain_discovered_lem_example :
    (m' : Manager) × (drain_discovered env m ≡ some (tt, m'))
    × (m'.discoveries ≡ [])
    × Deque.IsValid cache_size m'.cache
    × (cached m'.cache ≡ newest cache_size (cached m.cache ++ m.discoveries))
    × (m'.scheduler.notified ≡ (
        if has_met_connection_quota m.statistics || available m.connection_pool == 0
        then m.scheduler.notified
        else true))
drain_discovered_lem_example = drain_discovered_lem env m m-cache

abbrev greeted : RingBuffer
greeted = record {
  read = 0;
  write = 0;
  readable = 68;
  buffer = compute_handshake (replicate 20 1) (replicate 20 2);
}

greeted-IsValid : Fifo.IsValid 68 greeted
unfolding compute_handshake
greeted-IsValid = record {
  small = omega arith;
  storage = refl;
  read_in = omega arith;
  readable_in = omega arith;
  write_at_end = refl;
}

greeted-contents : contents 68 greeted ≡ compute_handshake (replicate 20 1) (replicate 20 2)
unfolding compute_handshake
greeted-contents = refl

decode-compute_handshake_example :
    let (result, peer', r') = decode greeted (replicate 20 1) (replicate 20 0) in
    (result ≡ record { complete = true; valid = equal (replicate 20 1) (replicate 20 1) })
    × (peer' ≡ (if equal (replicate 20 1) (replicate 20 1) then replicate 20 2 else replicate 20 0))
    × Fifo.IsValid 68 r'
    × (contents 68 r' ≡ [])
decode-compute_handshake_example =
    decode-compute_handshake (replicate 20 1) (replicate 20 2) refl refl greeted (replicate 20 1)
      (replicate 20 0) greeted-IsValid greeted-contents refl

unknown : lookup (10 ∷ 0 ∷ 0 ∷ 9 ∷ 26 ∷ 225 ∷ []) m.ipv4_peers ≡ none
unfolding lookup
unknown = refl

accept-Admitted_example : Yields (Admitted env 8 1 store [] m blank) (accept_peer_connection env m)
accept-Admitted_example = accept-Admitted env 8 1 store [] m blank refl refl refl blank-Peer unknown

-- A system without IPv6.
abbrev without_ipv6 : Answers
without_ipv6 = record {
  socket6 = failed eafnosupport;
  socket4 = returned 5;
  setsockopt = returned 0;
  bind = returned 0;
  getsockname = returned 51413;
  listen = returned 0;
}

abbrev fresh_server : ServerContext
fresh_server = record {
  socket = some 0;
  family = unspec;
  ipv4_support = false;
  port = 0;
  listening = false;
}

abbrev started : ServerContext
started = record {
  socket = some 5;
  family = inet;
  ipv4_support = true;
  port = 51413;
  listening = true;
}

starts : initialize_server_socket without_ipv6 fresh_server ≡ ok started
unfolding initialize_server_socket handle_socket_errno
starts = refl

initialize_server_socket-Listens_example : Listens without_ipv6 started
initialize_server_socket-Listens_example =
    initialize_server_socket-Listens without_ipv6 fresh_server started starts
