-- ===== src/Peer/Tests.antt =====
-- A ring of four bytes on a socket, and the theorems there.
use bittorrent_application_l.Base.{
  ℕ, ◌≡◌, refl, true, false, [], ◌∷◌, ◌++◌, some, none, replicate, length-replicate, arith, length,
  ◌==◌,
}
use bittorrent_application_l.RingBuffer.{RingBuffer}
use bittorrent_application_l.RingBuffer.Fifo.{IsValid, contents}
use bittorrent_application_l.Peer.Socket.{
  eintr, no_error, returned, failed, received, read_failed, fresh_tcp, sent, retry, retry_read,
  send, taken, recv,
}
use bittorrent_application_l.Peer.Connection.{ev_read_only}
use bittorrent_application_l.Peer.Session.{
  PeerSession, session_size, set_endpoint, endpoint_disconnected, is_dummy,
  set_endpoint-endpoint_disconnected,
}
use bittorrent_application_l.Peer.Transfer.{wire, send_lem, recv_lem}

-- 7, 8 at the end of the array, then 9 at its start.
abbrev ring : RingBuffer
ring = record { read = 2; write = 1; readable = 3; buffer = 9 ∷ 0 ∷ 7 ∷ 8 ∷ [] }

abbrev full_ring : RingBuffer
full_ring = record { read = 1; write = 1; readable = 4; buffer = 9 ∷ 0 ∷ 7 ∷ 8 ∷ [] }

ring-IsValid : IsValid 4 ring
ring-IsValid = omega arith

full_ring-IsValid : IsValid 4 full_ring
full_ring-IsValid = omega arith

retried : retry (failed eintr ∷ returned 2 ∷ []) ≡ some (returned 2)
unfolding retry
retried = refl

retried_read : retry_read (read_failed eintr ∷ received (5 ∷ []) ∷ []) ≡ some (received (5 ∷ []))
unfolding retry_read
retried_read = refl

end_of_stream : retry_read (received [] ∷ []) ≡ some (received [])
unfolding retry_read
end_of_stream = refl

-- The system is interrupted once and then takes two bytes.
send_lem_example :
    let (transact, t', r') = sent 4 fresh_tcp ring (returned 2) in
    (send 4 (failed eintr ∷ returned 2 ∷ []) fresh_tcp ring ≡ some (transact, t', r'))
    × IsValid 4 r'
    × (wire 4 ring (returned 2) ++ contents 4 r' ≡ 7 ∷ 8 ∷ 9 ∷ [])
    × (transact.bytes ≡ 2)
    × (transact.buffer_flag ≡ (length (contents 4 r') == 0))
    × (transact.transport_ok ≡ true)
send_lem_example =
    send_lem 4 (failed eintr ∷ returned 2 ∷ []) (returned 2) fresh_tcp ring ring-IsValid retried
      (omega arith)

recv_lem_example :
    let (transact, t', r') = taken 4 fresh_tcp ring (received (5 ∷ [])) in
    (recv 4 (read_failed eintr ∷ received (5 ∷ []) ∷ []) fresh_tcp ring ≡ some (transact, t', r'))
    × IsValid 4 r'
    × (contents 4 r' ≡ 7 ∷ 8 ∷ 9 ∷ 5 ∷ [])
    × (transact.bytes ≡ 1)
    × (transact.buffer_flag ≡ (length (contents 4 r') == 4))
    × (transact.transport_ok ≡ true)
recv_lem_example =
    recv_lem 4 (read_failed eintr ∷ received (5 ∷ []) ∷ []) (received (5 ∷ [])) fresh_tcp ring
      ring-IsValid retried_read (omega arith)

abbrev session_ring : RingBuffer
session_ring = record { read = 3; write = 5; readable = 2; buffer = replicate session_size 0 }

abbrev idle_session : PeerSession
idle_session = record {
  tcp = record { socket = none; perrno = no_error };
  recv_buffer = session_ring;
  send_buffer = session_ring;
  watcher = record {
    sock_active = false;
    sock_fd = none;
    sock_events = ev_read_only;
    timer_active = false;
    timer_after = 0;
    attached = false;
  };
  id = 0;
  generation = 0;
  choke = (true, true);
  interest = (false, false);
  down_rate = 0;
  upld_rate = 0;
  bitfield = record { bitfield = []; length_ = 0 };
  peer = none;
}

set_endpoint-endpoint_disconnected_example :
    let held =
      set_endpoint (record { peer = 4; socket = some 9; id = 0; generation = 2 }) idle_session in
    let (notice, s') = endpoint_disconnected held in
    (held.tcp.socket ≡ some 9)
    × (notice.peer ≡ some 4)
    × (notice.generation ≡ 2)
    × (is_dummy s' ≡ true)
    × (s'.tcp.socket ≡ none)
    × (contents session_size s'.recv_buffer ≡ [])
    × (contents session_size s'.send_buffer ≡ [])
    × IsValid session_size s'.recv_buffer
    × IsValid session_size s'.send_buffer
set_endpoint-endpoint_disconnected_example =
    set_endpoint-endpoint_disconnected idle_session 4 9 0 2 refl (length-replicate {A = ℕ} 65536 0)
      (length-replicate {A = ℕ} 65536 0)
