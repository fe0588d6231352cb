-- ===== src/Manager/Accept/Keys.antt =====
-- The address that a peer is connected to, against the key that it is known by.
use bittorrent_application_l.Base.{ℕ, ◌≡◌, refl, List, [], ◌∷◌, some}
use bittorrent_application_l.Peer.Connection.{PSource, Pipv, SockStore, store_of}
use bittorrent_application_l.Manager.Scheduler.{key_of_ipv4}
use bittorrent_application_l.Manager.Accept.{peer_address}

-- A tracker's IPv4 peer a.b.c.d:(hi,lo) gets a socket address with the port (lo,0), the low byte and a
-- byte past the six: an accept from that address would know it by another key, for all bytes.
pub peer_address-store_of :
    (a b c d hi lo : ℕ) (peer_id : List ℕ) (old : SockStore)
    → let key = key_of_ipv4 (a ∷ b ∷ c ∷ d ∷ hi ∷ lo ∷ []) in
      let store = store_of PSource.tracker Pipv.ipv4 key peer_id old in
      peer_address store ≡ some (Pipv.ipv4, key_of_ipv4 (a ∷ b ∷ c ∷ d ∷ lo ∷ 0 ∷ []))
unfolding store_of peer_address
peer_address-store_of a b c d hi lo peer_id old = refl
