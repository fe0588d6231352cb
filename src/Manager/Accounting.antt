-- ===== src/Manager/Accounting.antt =====
-- What the manager's handlers do to the counters of `connection_statistics_t`.
use bittorrent_application_l.Base.{
  ℕ, suc, zero, ◌≡◌, refl, sym, ap, subst, ◌∙◌, false, not, ◌||◌, leb, if◌then◌else◌, List, [], ◌∷◌,
  some, Bool-cases, inl, inr, add_size,
}
use bittorrent_application_l.SlotPool.{Slot}
use bittorrent_application_l.Peer.Socket.{close_socket}
use bittorrent_application_l.Peer.Connection.{PeerConnection, PState, PSource}
use bittorrent_application_l.Manager.State.{
  Statistics, Manager, M, ◌>>=◌, ◌>>◌, Env, assert, get_peer, set_peer, find_slot, store_slot,
  single_inbound_resolved, single_outbound_resolved, max_reties, send_notification,
}
use bittorrent_application_l.Manager.Connecting.{
  with_peer, is_server, is_null_source, stop_connection_watchers, delete_peer_connection,
  resolve_inflight, retry_or_delete, handle_peer_failure,
}
use bittorrent_application_l.Manager.Inflight.Quiet.{
  Holds, Quiet, Holds-bind, Holds-map, Quiet-bind, Quiet-if, Quiet-assert,
}
use bittorrent_application_l.Manager.Inflight.Handlers.{
  Quiet-set_peer, Quiet-with_peer, Quiet-delete,
}

-- The peer in a slot.
abbrev pub Peer : ℕ → Manager → PeerConnection → Type 0
Peer i m p = find_slot m.connection_pool.pool i ≡ some p

pub find_slot-store_slot :
    (slots : List (Slot PeerConnection)) (i : ℕ) (p q : PeerConnection)
    → find_slot slots i ≡ some p
    → find_slot (store_slot slots i q) i ≡ some q
unfolding find_slot store_slot
find_slot-store_slot [] i p q e = cc
find_slot-store_slot (s ∷ slots) zero p q e = refl
find_slot-store_slot (s ∷ slots) (suc i) p q e = find_slot-store_slot slots i p q e

abbrev pub put_peer : ℕ → PeerConnection → Manager → Manager
put_peer i p m = record m {
  connection_pool = record m.connection_pool { pool = store_slot m.connection_pool.pool i p };
}

pub get_peer-Peer :
    (i : ℕ) (m : Manager) (p : PeerConnection) → Peer i m p → get_peer i m ≡ some (p, m)
unfolding get_peer
get_peer-Peer i m p e = rw (get_peer, e) refl

-- A peer that is read, and one that is changed first.
pub Holds-get_peer :
    {A : Type 0} (Q : A → Manager → Type 0) (i : ℕ) (m : Manager) (p : PeerConnection)
    (f : PeerConnection → M A)
    → Peer i m p
    → Holds Q (f p m)
    → Holds Q ((get_peer i >>= f) m)
Holds-get_peer Q i m p f e h =
    subst (λ o. Holds Q (((λ (_ : Manager). o) >>= f) m)) (sym (get_peer-Peer i m p e)) h

pub Holds-with_peer :
    {A : Type 0} (Q : A → Manager → Type 0) (i : ℕ) (m : Manager) (p : PeerConnection)
    (f : PeerConnection → PeerConnection) (s : M A)
    → Peer i m p
    → (Peer i (put_peer i (f p) m) (f p) → Holds Q (s (put_peer i (f p) m)))
    → Holds Q ((with_peer i f >> s) m)
unfolding set_peer
Holds-with_peer Q i m p f s e h =
    subst (λ o. Holds Q (((λ (_ : Manager). o) >>= (λ q. set_peer i (f q)) >> s) m))
      (sym (get_peer-Peer i m p e)) (h (find_slot-store_slot m.connection_pool.pool i p (f p) e))

-- Unless an assertion stops it, a step changes the statistics by `f`.
abbrev pub Counts : {A : Type 0} → (Statistics → Statistics) → M A → Type 0
Counts f s = (m : Manager) → Holds (λ a m'. m'.statistics ≡ f m.statistics) (s m)

Quiet-Counts :
    {A B : Type 0} (g : Statistics → Statistics) (s : M A) (f : A → M B)
    → Quiet s
    → ((a : A) → Counts g (f a))
    → Counts g (s >>= f)
Quiet-Counts g s f h k m =
    Holds-bind _ (s m) f (h m) λ a m' e. Holds-map _ (f a m') (k a m') λ b m'' e'. e' ∙ ap g e.0

Counts-Quiet :
    {A B : Type 0} (g : Statistics → Statistics) (s : M A) (f : A → M B)
    → Counts g s
    → ((a : A) → Quiet (f a))
    → Counts g (s >>= f)
Counts-Quiet g s f h k m =
    Holds-bind _ (s m) f (h m) λ a m' e. Holds-map _ (f a m') (k a m') λ b m'' e'. e'.0 ∙ e

-- One less in flight on the side that the peer came from.
abbrev pub resolved_by : PSource → Statistics → Statistics
resolved_by source s =
    if is_server source then single_outbound_resolved s else single_inbound_resolved s

Counts-resolve_inflight :
    (env : Env) (p : PeerConnection) → Counts (resolved_by p.source) (resolve_inflight env p)
unfolding resolve_inflight send_notification
Counts-resolve_inflight env p m = elim (Bool-cases (is_server p.source)) [
  | inl server ↦ rw (resolve_inflight, server) refl
  | inr other ↦ rw (resolve_inflight, other, send_notification) refl
]

Quiet-stop : (i : ℕ) → Quiet (stop_connection_watchers i)
unfolding stop_connection_watchers
Quiet-stop i = Quiet-with_peer i _

abbrev failed_once : PeerConnection → PeerConnection
failed_once p = record p { state = PState.failed; failures = add_size p.failures 1 }

abbrev closed : PeerConnection → PeerConnection
closed p = record p { tcp = close_socket p.tcp }

abbrev pub now_connected : PeerConnection → PeerConnection
now_connected p = record p { state = PState.connected }

abbrev pub unwatched : PeerConnection → PeerConnection
unwatched p = record p {
  listener = record p.listener { sock_active = false; timer_active = false };
}

module _ (env : Env) (i : ℕ) where
  Quiet-retry_or_delete : (p : PeerConnection) → Quiet (retry_or_delete env i p)
  Quiet-retry_or_delete p =
      Quiet-if (leb max_reties p.failures || is_server p.source) (delete_peer_connection env i) _
        (Quiet-delete env i)
        (Quiet-bind (stop_connection_watchers i) _ (Quiet-stop i) λ _. Quiet-with_peer i _)

  -- A failed peer counts as one less in flight, on its own side and whether it is given up or retried,
  -- and the other counters stay, unless an assertion stops the program.
  pub handle_peer_failure-Counts :
      (m : Manager) (p : PeerConnection)
      → Peer i m p
      → Holds
          (λ _ m'. m'.statistics ≡ resolved_by p.source m.statistics)
          (handle_peer_failure env i m)
  unfolding handle_peer_failure
  handle_peer_failure-Counts m p e = Holds-with_peer _ i m p failed_once _ e λ e1.
      Holds-get_peer _ i (put_peer i (failed_once p) m) (failed_once p) _ e1 (
        Quiet-Counts (resolved_by p.source) (assert env (not (is_null_source p.source))) _
          (Quiet-assert env (not (is_null_source p.source))) (λ _. resolve_and_retry)
          (put_peer i (failed_once p) m))
    where
      resolve_and_retry : Counts (resolved_by p.source) (
          set_peer i (closed (failed_once p))
          >> (resolve_inflight env (failed_once p) >> retry_or_delete env i (failed_once p)))
      resolve_and_retry =
          Quiet-Counts (resolved_by p.source) (set_peer i (closed (failed_once p))) _
            (Quiet-set_peer i (closed (failed_once p)))
            λ _.
              Counts-Quiet (resolved_by p.source) (resolve_inflight env (failed_once p)) _
                (Counts-resolve_inflight env (failed_once p))
                λ _. Quiet-retry_or_delete (failed_once p)
