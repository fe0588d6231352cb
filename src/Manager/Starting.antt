-- ===== src/Manager/Starting.antt =====
-- Which connections `initiate_connect` and the scheduler can start.
use bittorrent_application_l.Base.{
  ℕ, suc, ◌≡◌, ◌≢◌, refl, sym, ap, subst, Bool, true, false, not, ◌||◌, List, Option, none, some,
  Option-cases, inl, inr, if◌then◌else◌,
}
use bittorrent_application_l.Peer.Socket.{Family, Perrno, code, einval, SysResult, open_socket}
use bittorrent_application_l.Peer.Connection.{PeerConnection}
use bittorrent_application_l.Manager.State.{
  Manager, M, pure, ◌>>=◌, ◌>>◌, modify, get, lift, when, Env, ask, assert, get_peer, set_peer,
  DisconnectUpdate, find_slot, set_statistics,
}
use bittorrent_application_l.Manager.Connecting.{
  is_tracker, is_server, attempt, connect, initiate_connect, delete_peer_connection,
}
use bittorrent_application_l.Manager.Scheduler.{
  connect_or_delete, try_disconnected, gone, retire, reconnect, retire_or_reconnect, stale,
  try_notice,
}
use bittorrent_application_l.Manager.Inflight.Quiet.{Holds, Holds-bind}
use bittorrent_application_l.Manager.Accounting.{Peer, Holds-get_peer, Holds-with_peer}

-- A computation without a result.
abbrev Nothing : {A : Type 0} → A → Manager → Type 0
Nothing a m = true ≡ false

none_of : {A : Type 0} (o : Option (A × Manager)) → Holds Nothing o → o ≡ none
none_of none h = refl
none_of (some (a, m)) h = cc

-- What an assertion that is compiled in lets pass, and one that may be compiled out.
Holds-assert :
    {A : Type 0} (Q : A → Manager → Type 0) (env : Env) (b : Bool) (s : M A) (m : Manager)
    → env.ndebug ≡ false
    → (b ≡ true → Holds Q (s m))
    → Holds Q ((assert env b >> s) m)
Holds-assert Q env true s m e h =
    subst (λ d. Holds Q (((if d || true then pure tt else λ _. none) >> s) m)) (sym e) (h refl)
Holds-assert Q env false s m e h =
    subst (λ d. Holds Q (((if d || false then pure tt else λ _. none) >> s) m)) (sym e) tt

after_check :
    {A : Type 0} (Q : A → Manager → Type 0) (b : Bool) (s : M A) (m : Manager)
    → Holds Q (s m)
    → Holds Q (((if b then pure tt else λ _. none) >> s) m)
after_check Q true s m h = h
after_check Q false s m h = tt

pub Holds-after_assert :
    {A : Type 0} (Q : A → Manager → Type 0) (env : Env) (b : Bool) (s : M A) (m : Manager)
    → Holds Q (s m)
    → Holds Q ((assert env b >> s) m)
Holds-after_assert Q env b s m h = after_check Q (env.ndebug || b) s m h

no_peer :
    {A : Type 0} (i : ℕ) (m : Manager) (f : PeerConnection → M A)
    → find_slot m.connection_pool.pool i ≡ none
    → (get_peer i >>= f) m ≡ none
unfolding get_peer
no_peer i m f e = ap (λ o. ((λ (_ : Manager). lift o m) >>= f) m) e

-- No test and its negation both pass.
both : {A : Type 0} (b : Bool) → b ≡ true → not b ≡ true → A
both true e f = cc
both false e f = cc

-- With assertions compiled in no connection is ever initiated: `initiate_connect` asserts that the
-- peer comes from the tracker, and `connect`, which it calls next, that it does not.
pub initiate_connect-none :
    (env : Env) (i : ℕ) (m : Manager) → env.ndebug ≡ false → initiate_connect env i m ≡ none
unfolding initiate_connect connect
initiate_connect-none env i m e = elim (Option-cases (find_slot m.connection_pool.pool i)) [
  | inl missing ↦ no_peer i m _ missing
  | inr (p, found) ↦ none_of (initiate_connect env i m) (
      Holds-get_peer Nothing i m p _ found (
        Holds-assert Nothing env (is_tracker p.source) _ m e λ tracker.
          Holds-bind Nothing (connect env i m) _
            (Holds-get_peer Nothing i m p _ found (
              Holds-assert Nothing env (not (is_tracker p.source)) _ m e
                λ other. both (is_tracker p.source) tracker other))
            λ _ _ never. cc))
]

-- Steps whose answer, if they have one, is that nothing was started.
abbrev No : Bool → Manager → Type 0
No started m = started ≡ false

open_socket-held :
    (answers : List SysResult) (held : Option ℕ) (error : Perrno) (domain : Family) (fd : ℕ)
    → held ≡ some fd
    → open_socket answers (record { socket = held; perrno = error }) domain
      ≡ some (false, record { socket = held; perrno = code einval })
unfolding open_socket
open_socket-held answers (some fd') error domain fd e = refl
open_socket-held answers none error domain fd e = cc

Holds-any : {A : Type 0} (o : Option (A × Manager)) → Holds (λ _ _. Unit) o
Holds-any none = tt
Holds-any (some (a, m)) = tt

module _ (env : Env) (i fd : ℕ) where
  -- A step counts as one that starts nothing in states where the peer holds its socket.
  abbrev HeldNo : M Bool → Type 0
  HeldNo s =
      (m : Manager) (p : PeerConnection) → Peer i m p → p.tcp.socket ≡ some fd → Holds No (s m)

  connect-HeldNo : HeldNo (connect env i)
  unfolding connect ask set_peer
  connect-HeldNo m p found held = Holds-get_peer No i m p _ found (
      Holds-after_assert No env (not (is_tracker p.source)) _ m (
        subst
          (λ o. Holds No (
            (lift o >>= (λ x. set_peer i (record p { tcp = x.1 }) >> attempt env i p x.0 x.1))
              (record m { calls = suc m.calls })))
          (sym (
            open_socket-held (env.sockets m.calls) p.tcp.socket p.tcp.perrno p.store.family fd
              held))
          refl))

  not_counted :
      (started : Bool) (m : Manager)
      → started ≡ false
      → Holds No (
          (when started (modify (set_statistics env.increment_inbound_inflight)) >> pure started) m)
  not_counted false m e = refl
  not_counted true m e = cc

  initiate_connect-HeldNo : HeldNo (initiate_connect env i)
  unfolding initiate_connect
  initiate_connect-HeldNo m p found held = Holds-get_peer No i m p _ found (
      Holds-after_assert No env (is_tracker p.source) _ m (
        Holds-bind No (connect env i m) _ (connect-HeldNo m p found held)
          λ started m' none_started. not_counted started m' none_started))

  retire-No : (m : Manager) → Holds No (retire env i m)
  retire-No m = Holds-bind No (delete_peer_connection env i m) _ (Holds-any _) λ _ _ _. refl

  -- A connection that was not started is deleted, which is no start either.
  unless_started :
      (started : Bool) (m : Manager)
      → started ≡ false
      → Holds No ((if started then pure true else retire env i) m)
  unless_started false m e = retire-No m
  unless_started true m e = cc

  connect_or_delete-HeldNo : HeldNo (connect_or_delete env i)
  unfolding connect_or_delete
  connect_or_delete-HeldNo m p found held =
      Holds-bind No (initiate_connect env i m) _ (initiate_connect-HeldNo m p found held)
        unless_started

  No-if :
      (b : Bool) (s t : M Bool) (m : Manager)
      → Holds No (s m)
      → Holds No (t m)
      → Holds No ((if b then s else t) m)
  No-if true s t m h k = h
  No-if false s t m h k = k

  reconnect-HeldNo : HeldNo (reconnect env i)
  reconnect-HeldNo m p found held =
      Holds-with_peer No i m p _ _ found λ found'. connect_or_delete-HeldNo _ _ found' held

  retire_or_reconnect-HeldNo : HeldNo (retire_or_reconnect env i)
  retire_or_reconnect-HeldNo m p found held = Holds-get_peer No i m p _ found (
      No-if (gone env p.tcp.perrno || is_server p.source) (retire env i) (reconnect env i) m
        (retire-No m) (reconnect-HeldNo m p found held))

  try_notice-HeldNo : HeldNo (try_notice env i)
  try_notice-HeldNo m p found held =
      Holds-with_peer No i m p _ _ found λ found'. retire_or_reconnect-HeldNo _ _ found' held

-- A peer that disconnects while its slot still holds the socket is never connected to again: the
-- notice starts nothing, since the new socket is refused while the old one is held.
pub try_disconnected-No :
    (env : Env) (update : DisconnectUpdate) (fd : ℕ) (m m' : Manager) (p : PeerConnection)
    → Peer update.peer m p
    → p.tcp.socket ≡ some fd
    → try_disconnected env update m ≢ some (true, m')
unfolding try_disconnected get
try_disconnected-No env update fd m m' p found held started = both true refl (
    sym (
      subst (Holds No) started (
        No-if env update.peer fd (stale env m update) (pure false) (try_notice env update.peer) m
          refl (try_notice-HeldNo env update.peer fd m p found held))))
