-- ===== src/Peer.antt =====
-- src/Client/PeerManagerTypes.hpp and PeerManagerTypes.cpp: sockets, peer connections and sessions.
pub mod Socket
pub mod Connection
pub mod Transfer
pub mod Session
mod Tests
