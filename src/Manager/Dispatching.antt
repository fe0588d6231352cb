-- ===== src/Manager/Dispatching.antt =====
-- How a peer whose handshake is done is passed on: handle_peer_connection_and_dispatch of
-- src/Client/PeerConnectionManager.cpp.
use bittorrent_application_l.Base.{
  ℕ, zero, suc, ◌≡◌, refl, ap, ◌∙◌, true, ltb, if◌then◌else◌, List, [], ◌∷◌, ◌++◌, length,
  Bool-cases, inl, inr,
}
use bittorrent_application_l.SlotPool.{Slot, Pool, generation, generation_at}
use bittorrent_application_l.Peer.Connection.{PeerConnection}
use bittorrent_application_l.Manager.State.{
  Manager, Env, get_peer, find_slot, store_slot, ConnectUpdate,
  increment_connected_bittorrent_peers, send_notification,
}
use bittorrent_application_l.Manager.Connecting.{
  is_server, stop_connection_watchers, resolve_inflight,
}
use bittorrent_application_l.Manager.Callbacks.{
  handle_peer_connection_and_dispatch, push_connect, connects_size,
}
use bittorrent_application_l.Manager.Accounting.{
  Peer, put_peer, resolved_by, now_connected, unwatched, get_peer-Peer,
}
use bittorrent_application_l.Manager.Accept.Yields.{Yields, Yields-step, Yields-with_peer}

generation_at-store_slot :
    (slots : List (Slot PeerConnection)) (i j : ℕ) (p : PeerConnection)
    → generation_at (store_slot slots i p) j ≡ generation_at slots j
unfolding generation_at store_slot
generation_at-store_slot [] i j p = refl
generation_at-store_slot (s ∷ slots) zero zero p = refl
generation_at-store_slot (s ∷ slots) zero (suc j) p = refl
generation_at-store_slot (s ∷ slots) (suc i) zero p = refl
generation_at-store_slot (s ∷ slots) (suc i) (suc j) p = generation_at-store_slot slots i j p

generation-put_peer :
    (m : Manager) (i : ℕ) (p : PeerConnection)
    → generation (put_peer i p m).connection_pool i ≡ generation m.connection_pool i
unfolding generation
generation-put_peer m i p = generation_at-store_slot m.connection_pool.pool i i p

-- What the transfer side is told of a peer.
abbrev pub handed_over : ℕ → PeerConnection → Manager → ConnectUpdate
handed_over i p m = record {
  peer = i;
  socket = p.tcp.socket;
  id = 0;
  generation = generation m.connection_pool i;
}

-- The peer is connected and watched no more, the transfer side is told of it unless the queue is
-- full, it counts as connected and as one less in flight on its own side, and a tracker's peer wakes the
-- scheduler.
pub record Dispatched (i : ℕ) (m : Manager) (p : PeerConnection) (done : Unit {0}) (m' : Manager)
    : Type 0 where
  pub statistics :
      m'.statistics ≡ resolved_by p.source (increment_connected_bittorrent_peers m.statistics)
  pub peer : Peer i m' (unwatched (now_connected p))
  pub connects : m'.connects ≡ (
      if ltb (length m.connects) connects_size
      then m.connects ++ (handed_over i p m ∷ [])
      else m.connects)
  pub notified : m'.scheduler.notified ≡ (if is_server p.source then m.scheduler.notified else true)

resolve-Yields :
    (env : Env) (p : PeerConnection) (m : Manager) (Q : Unit {0} → Manager → Type 0)
    → ((n : Manager)
        → n.statistics ≡ resolved_by p.source m.statistics
        → n.connection_pool ≡ m.connection_pool
        → n.connects ≡ m.connects
        → n.scheduler.notified ≡ (if is_server p.source then m.scheduler.notified else true)
        → Q tt n)
    → Yields Q (resolve_inflight env p m)
unfolding resolve_inflight send_notification
resolve-Yields env p m Q h = elim (Bool-cases (is_server p.source)) [
  | inl server ↦ rw server (tt, _, refl, h _ (rw server refl) refl refl (rw server refl))
  | inr other ↦ rw other (tt, _, refl, h _ (rw other refl) refl refl (rw other refl))
]

-- A peer in a slot whose handshake is done is always passed on.
pub dispatch-Dispatched :
    (env : Env) (i : ℕ) (m : Manager) (p : PeerConnection)
    → Peer i m p
    → Yields (Dispatched i m p) (handle_peer_connection_and_dispatch env i m)
unfolding handle_peer_connection_and_dispatch stop_connection_watchers push_connect
dispatch-Dispatched env i m p e = Yields-with_peer (Dispatched i m p) i connect_it _ m p e λ e1.
    Yields-with_peer (Dispatched i m p) i unwatched _ (put_peer i (now_connected p) m)
      (now_connected p) e1
      λ e2.
        Yields-step (Dispatched i m p) (get_peer i) _ _ (unwatched (now_connected p)) after
          (get_peer-Peer i after (unwatched (now_connected p)) e2)
          (resolve-Yields env (unwatched (now_connected p)) _ (Dispatched i m p) λ _ s q c w.
            record {
              statistics = s;
              peer = ap (λ (o : Pool PeerConnection). find_slot o.pool i) q ∙ e2;
              connects = c ∙ ap queued generations;
              notified = w;
            })
  where
    connect_it : PeerConnection → PeerConnection
    connect_it q = now_connected q

    after : Manager
    after = put_peer i (unwatched (now_connected p)) (put_peer i (now_connected p) m)

    queued : ℕ → List ConnectUpdate
    queued g =
        if ltb (length m.connects) connects_size
        then m.connects ++ (record (handed_over i p m) { generation = g } ∷ [])
        else m.connects

    generations : generation after.connection_pool i ≡ generation m.connection_pool i
    generations =
        generation-put_peer (put_peer i (now_connected p) m) i (unwatched (now_connected p))
        ∙ generation-put_peer m i (now_connected p)
