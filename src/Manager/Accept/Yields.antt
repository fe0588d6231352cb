-- ===== src/Manager/Accept/Yields.antt =====
-- Steps that have a result, and what holds of it.
use bittorrent_application_l.Base.{
  ◌≡◌, sym, ap, subst, Bool, true, false, Option, none, some, ℕ, if◌then◌else◌,
}
use bittorrent_application_l.Peer.Connection.{PeerConnection}
use bittorrent_application_l.Manager.State.{Manager, M, pure, ◌>>=◌, ◌>>◌, set_peer}
use bittorrent_application_l.Manager.Connecting.{with_peer}
use bittorrent_application_l.Manager.Accounting.{
  Peer, put_peer, find_slot-store_slot, get_peer-Peer,
}

-- That a step has a result, and what holds of it.
abbrev pub Yields : {A : Type 0} → (A → Manager → Type 0) → Option (A × Manager) → Type 0
Yields {A} P o = (a : A) × (m : Manager) × (o ≡ some (a, m)) × P a m

pub Yields-step :
    {A B : Type 0} (Q : B → Manager → Type 0) (s : M A) (f : A → M B) (m : Manager) (a : A)
    (m' : Manager)
    → s m ≡ some (a, m')
    → Yields Q (f a m')
    → Yields Q ((s >>= f) m)
Yields-step Q s f m a m' e h = subst (λ o. Yields Q (((λ (_ : Manager). o) >>= f) m)) (sym e) h

pub with_peer-Peer :
    (i : ℕ) (f : PeerConnection → PeerConnection) (m : Manager) (p : PeerConnection)
    → Peer i m p
    → with_peer i f m ≡ some (tt, put_peer i (f p) m)
unfolding set_peer
with_peer-Peer i f m p e =
    ap (λ o. ((λ (_ : Manager). o) >>= (λ q. set_peer i (f q))) m) (get_peer-Peer i m p e)

pub Yields-with_peer :
    {B : Type 0} (Q : B → Manager → Type 0) (i : ℕ) (f : PeerConnection → PeerConnection) (s : M B)
    (m : Manager) (p : PeerConnection)
    → Peer i m p
    → (Peer i (put_peer i (f p) m) (f p) → Yields Q (s (put_peer i (f p) m)))
    → Yields Q ((with_peer i f >> s) m)
Yields-with_peer Q i f s m p e h =
    Yields-step Q (with_peer i f) (λ _. s) m tt (put_peer i (f p) m) (with_peer-Peer i f m p e)
      (h (find_slot-store_slot m.connection_pool.pool i p (f p) e))

pub Yields-if_false :
    {A : Type 0} (Q : A → Manager → Type 0) (b : Bool) (s t : M A) (m : Manager)
    → b ≡ false
    → Yields Q (t m)
    → Yields Q ((if b then s else t) m)
Yields-if_false Q false s t m e h = h
Yields-if_false Q true s t m e h = cc

pub after_check :
    {A : Type 0} (Q : A → Manager → Type 0) (b : Bool) (s : M A) (m : Manager)
    → b ≡ true
    → Yields Q (s m)
    → Yields Q (((if b then pure tt else λ _. none) >> s) m)
after_check Q true s m e h = h
after_check Q false s m e h = cc
