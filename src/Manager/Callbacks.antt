-- ===== src/Manager/Callbacks.antt =====
-- What the manager does when a peer's socket or timer fires.
use bittorrent_application_l.Base.{
  ℕ, Bool, true, false, not, ltb, if◌then◌else◌, List, [], ◌∷◌, ◌++◌, replicate, length,
}
use bittorrent_application_l.Handshake.{encode, decode}
use bittorrent_application_l.RingBuffer.{empty}
use bittorrent_application_l.SlotPool.{generation}
use bittorrent_application_l.Peer.Socket.{Transact, close_socket}
use bittorrent_application_l.Peer.Connection.{
  PState, PSource, Events, ev_read_only, ev_write_only, send_messages, recv_messages,
}
use bittorrent_application_l.Manager.State.{
  M, pure, ◌>>=◌, ◌>>◌, modify, get, lift, Env, SoError, pending_nothing, getsockopt_failed,
  pending, ask, assert, get_peer, set_peer, ConnectUpdate, set_statistics,
  increment_connected_bittorrent_peers, has_met_connection_quota,
}
use bittorrent_application_l.Manager.Connecting.{
  with_peer, modify_peer_socket_w_event, stop_connection_watchers, delete_peer_connection,
  resolve_inflight, handle_peer_failure,
}

abbrev pub is_connected : PState → Bool
is_connected PState.connected = true
is_connected s = false

abbrev is_failed : PState → Bool
is_failed PState.failed = true
is_failed s = false

-- The capacity of `pconnection_queue`; a push to a full queue is lost.
abbrev pub connects_size : ℕ
connects_size = 50

-- bittorrent_messages::protocol_string, "BitTorrent protocol"
abbrev pub protocol_string : List ℕ
protocol_string =
    b'B' ∷ b'i' ∷ b't' ∷ b'T' ∷ b'o' ∷ b'r' ∷ b'r' ∷ b'e' ∷ b'n' ∷ b't' ∷ 32 ∷ b'p' ∷ b'r' ∷ b'o'
    ∷ b't' ∷ b'o' ∷ b'c' ∷ b'o' ∷ b'l' ∷ []

-- compute_handshake
unfoldable pub compute_handshake : List ℕ → List ℕ → List ℕ
compute_handshake info_hash_bytes client_id =
    19 ∷ (protocol_string ++ (replicate 8 0 ++ (info_hash_bytes ++ client_id)))

module _ (env : Env) where
  abbrev send_to_peer : ℕ → M Transact
  send_to_peer i = do
    p ← get_peer i
    answers ← ask env.sends
    (t, p') ← lift (send_messages answers p)
    set_peer i p'
    pure t

  alive : SoError → M Bool
  alive pending_nothing = pure true
  alive (pending e) = pure false
  alive getsockopt_failed = do assert env false; pure true

  unfoldable pub peer_transport_level_connected : M Bool
  unfolding alive
  peer_transport_level_connected = do error ← ask env.so_error; alive error

  unfoldable pub push_connect : ConnectUpdate → List ConnectUpdate → List ConnectUpdate
  push_connect update queue =
      if ltb (length queue) connects_size then queue ++ (update ∷ []) else queue

  unfoldable pub handle_peer_connection_and_dispatch : ℕ → M (Unit {0})
  unfolding push_connect stop_connection_watchers resolve_inflight
  handle_peer_connection_and_dispatch i = do
    with_peer i (λ p. record p { state = PState.connected })
    stop_connection_watchers i
    p ← get_peer i
    modify (λ m. record m {
      connects =
          push_connect
            (record {
              peer = i;
              socket = p.tcp.socket;
              id = 0;
              generation = generation m.connection_pool i;
            })
            m.connects;
    })
    modify (set_statistics increment_connected_bittorrent_peers)
    resolve_inflight env p

  module _ (handshake info_hash : List ℕ) where
    -- The whole handshake goes to the send ring, and what the socket takes of it to the peer.
    unfoldable pub send_handshake : ℕ → M Transact
    send_handshake i = do
      p ← get_peer i
      assert env (empty p.send_buffer)
      let (written, cursor, buffer) = encode 68 handshake p.send_buffer (record { cursor = 0 })
      set_peer i (record p { send_buffer = buffer; outgoing_frame_cursor = cursor })
      t ← send_to_peer i
      assert env written.complete
      pure t

    -- EV_WRITE during the handshake: a send that was cut short goes on.
    unfoldable pub continue_sending : ℕ → M (Unit {0})
    continue_sending i = do
      t ← send_to_peer i
      p ← get_peer i
      if not t.transport_ok
          then handle_peer_failure env i
          else if not t.buffer_flag
          then pure tt
          else elim p.source [
            | PSource.tracker ↦ modify_peer_socket_w_event i ev_read_only
            | PSource.tcp_server ↦ handle_peer_connection_and_dispatch i
            | PSource.null ↦ pure tt
          ]

    -- The answer to a tcp_server peer's handshake.
    unfoldable pub answer_handshake : ℕ → M (Unit {0})
    unfolding send_handshake
    answer_handshake i = do
      t ← send_handshake i
      if not t.transport_ok
          then handle_peer_failure env i
          else if not t.buffer_flag
          then modify_peer_socket_w_event i ev_write_only
          else handle_peer_connection_and_dispatch i

    -- EV_READ during the handshake.
    unfoldable pub receive_handshake : ℕ → M (Unit {0})
    unfolding answer_handshake
    receive_handshake i = do
      p ← get_peer i
      answers ← ask env.recvs
      (t, p1) ← lift (recv_messages answers p)
      set_peer i p1
      if not t.transport_ok then handle_peer_failure env i else (do
        let (result, peer_id, buffer) = decode p1.recv_buffer info_hash p1.peer_id
        set_peer i (record p1 { recv_buffer = buffer; peer_id = peer_id })
        if not result.complete
            then pure tt
            else if not result.valid
            then (do
              with_peer i (λ q. record q { tcp = close_socket q.tcp })
              delete_peer_connection env i)
            else elim p1.source [
              | PSource.tracker ↦ handle_peer_connection_and_dispatch i
              | PSource.tcp_server ↦ answer_handshake i
              | PSource.null ↦ pure tt
            ])

    unfoldable pub handle_peer_application_level_handshake : ℕ → Events → M (Unit {0})
    unfolding continue_sending receive_handshake
    handle_peer_application_level_handshake i event =
        if event.ev_write
        then continue_sending i
        else if event.ev_read
        then receive_handshake i
        else pure tt

    unfoldable pub handle_peer_transport_level_initiations : ℕ → Events → M (Unit {0})
    unfolding send_handshake peer_transport_level_connected
    handle_peer_transport_level_initiations i event =
        if event.ev_write
        then (do
          up ← peer_transport_level_connected
          if not up then handle_peer_failure env i else (do
            with_peer i (λ p. record p { state = PState.handshake })
            t ← send_handshake i
            if t.transport_ok
                then modify_peer_socket_w_event i
                    (if t.buffer_flag then ev_read_only else ev_write_only)
                else handle_peer_failure env i))
        else pure tt

    -- Which handler a state has. Nothing else may happen to a connected peer.
    unfoldable pub peer_socket_callback : ℕ → Events → M (Unit {0})
    unfolding handle_peer_application_level_handshake handle_peer_transport_level_initiations
    peer_socket_callback i event = do
      p ← get_peer i
      assert env (not (is_connected p.state))
      m ← get
      if has_met_connection_quota m.statistics
          then delete_peer_connection env i
          else if event.ev_error
          then handle_peer_failure env i
          else elim p.state [
            | PState.discovered ↦ handle_peer_transport_level_initiations i event
            | PState.disconnected ↦ handle_peer_transport_level_initiations i event
            | PState.failed ↦ handle_peer_transport_level_initiations i event
            | PState.handshake ↦ handle_peer_application_level_handshake i event
            | PState.null ↦ delete_peer_connection env i
            | PState.connected ↦ delete_peer_connection env i
          ]

  unfoldable pub peer_timer_callback : ℕ → M (Unit {0})
  peer_timer_callback i = do
    p ← get_peer i
    assert env (not (is_connected p.state))
    m ← get
    if is_failed p.state
        then (do
          stop_connection_watchers i
          modify (λ m'. record m' {
            retry_queue =
                m'.retry_queue
                ++ (record { connection = i; cached_generation = generation m.connection_pool i }
                    ∷ []);
          }))
        else handle_peer_failure env i
