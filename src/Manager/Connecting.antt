-- ===== src/Manager/Connecting.antt =====
-- Starting and ending a connection.
use bittorrent_application_l.Base.{
  ℕ, Bool, true, false, not, ◌||◌, ◌*◌, leb, if◌then◌else◌, add_size,
}
use bittorrent_application_l.RingBuffer.{reset}
use bittorrent_application_l.SlotPool.{release}
use bittorrent_application_l.Peer.Socket.{
  Tcp, ConnectResult, inprogress, failed_connect, connected, open_socket, pconnect, close_socket,
}
use bittorrent_application_l.Peer.Connection.{
  PeerConnection, PState, PSource, Pipv, Events, ev_write_only, ipv4_key, teardown_connection,
}
use bittorrent_application_l.Manager.State.{
  M, pure, ◌>>=◌, ◌>>◌, modify, get, lift, when, Env, ask, assert, get_peer, set_peer, erase,
  set_statistics, single_inbound_resolved, single_outbound_resolved, max_reties, connect_timeout,
  retry_timeout, pool_size, send_notification,
}

abbrev pub with_peer : ℕ → (PeerConnection → PeerConnection) → M (Unit {0})
with_peer i f = do p ← get_peer i; set_peer i (f p)

abbrev pub is_tracker : PSource → Bool
is_tracker PSource.tracker = true
is_tracker s = false

abbrev pub is_server : PSource → Bool
is_server PSource.tcp_server = true
is_server s = false

abbrev pub is_null_source : PSource → Bool
is_null_source PSource.null = true
is_null_source s = false

unfoldable pub modify_peer_socket_w_event : ℕ → Events → M (Unit {0})
modify_peer_socket_w_event i event = with_peer i λ p. record p {
  listener = record p.listener { sock_active = true; sock_fd = p.tcp.socket; sock_events = event };
}

unfoldable pub arm_connection_watchers : ℕ → Events → M (Unit {0})
unfolding modify_peer_socket_w_event
arm_connection_watchers i event = do
  modify_peer_socket_w_event i event
  with_peer i λ p. record p {
    listener = record p.listener { timer_active = true; timer_after = connect_timeout };
  }

unfoldable pub stop_connection_watchers : ℕ → M (Unit {0})
stop_connection_watchers i =
    with_peer i
      λ p. record p { listener = record p.listener { sock_active = false; timer_active = false } }

module _ (env : Env) where
  unfoldable pub deregister_from_map : PeerConnection → M (Unit {0})
  deregister_from_map p = elim p.ipv [
    | Pipv.ipv6 ↦ modify λ m. record m { ipv6_peers = erase p.key m.ipv6_peers }
    | Pipv.null ↦ assert env false
    | _ ↦ modify λ m. record m { ipv4_peers = erase (ipv4_key p.key) m.ipv4_peers }
  ]

  unfoldable pub delete_peer_connection : ℕ → M (Unit {0})
  unfolding deregister_from_map
  delete_peer_connection i = do
    p ← get_peer i
    deregister_from_map p
    p' ← lift (teardown_connection env.ndebug p)
    set_peer i p'
    m ← get
    pool ← lift (release env.ndebug pool_size m.connection_pool i)
    modify λ m. record m { connection_pool = pool }

  -- A peer that connects at once also gets a write event fed to its watcher: the event loop's next
  -- call for it, which a run of `peer_socket_callback` stands for.
  abbrev pub resolved : ℕ → ConnectResult → M Bool
  resolved i failed_connect = do with_peer i λ q. record q { tcp = close_socket q.tcp }; pure false
  resolved i connected = do
    arm_connection_watchers i ev_write_only
    with_peer i λ q. record q { failures = 0; state = PState.handshake }
    pure true
  resolved i inprogress = do arm_connection_watchers i ev_write_only; pure true

  -- Once the socket is made, or not.
  abbrev pub attempt : ℕ → PeerConnection → Bool → Tcp → M Bool
  attempt i p false tcp = pure false
  attempt i p true tcp = do
    answers ← ask env.connections
    (resolve, tcp') ← lift (pconnect answers tcp p.store.family)
    set_peer i (record p { tcp = tcp' })
    resolved i resolve

  unfoldable pub connect : ℕ → M Bool
  unfolding arm_connection_watchers
  connect i = do
    p ← get_peer i
    assert env (not (is_tracker p.source))
    opening ← ask env.sockets
    (made, tcp) ← lift (open_socket opening p.tcp p.store.family)
    set_peer i (record p { tcp = tcp })
    attempt i p made tcp

  unfoldable pub initiate_connect : ℕ → M Bool
  unfolding connect
  initiate_connect i = do
    p ← get_peer i
    assert env (is_tracker p.source)
    done ← connect i
    when done (modify (set_statistics env.increment_inbound_inflight))
    pure done

  -- The counter of the side that the peer came from goes down, and a tracker's peer wakes the
  -- scheduler.
  unfoldable pub resolve_inflight : PeerConnection → M (Unit {0})
  resolve_inflight p =
      if is_server p.source
      then modify (set_statistics single_outbound_resolved)
      else do modify (set_statistics single_inbound_resolved); send_notification

  -- How `handle_peer_failure` ends: the peer is given up, or waits for its retry.
  abbrev pub retry_or_delete : ℕ → PeerConnection → M (Unit {0})
  retry_or_delete i p =
      if leb max_reties p.failures || is_server p.source then delete_peer_connection i else do
        stop_connection_watchers i
        with_peer i λ q. record q {
          outgoing_frame_cursor = record { cursor = 0 };
          recv_buffer = reset q.recv_buffer;
          send_buffer = reset q.send_buffer;
          listener = record q.listener {
            timer_active = true;
            timer_after = retry_timeout * q.failures;
          };
        }

  unfoldable pub handle_peer_failure : ℕ → M (Unit {0})
  unfolding resolve_inflight stop_connection_watchers
  handle_peer_failure i = do
    with_peer i λ p. record p { state = PState.failed; failures = add_size p.failures 1 }
    p ← get_peer i
    assert env (not (is_null_source p.source))
    set_peer i (record p { tcp = close_socket p.tcp })
    resolve_inflight p
    retry_or_delete i p
