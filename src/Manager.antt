-- ===== src/Manager.antt =====
-- src/Client/PeerConnectionManager.hpp, PeerConnectionManager.cpp and PeerCErrnoHandler.cpp.
pub mod State
pub mod Connecting
pub mod Scheduler
pub mod RoundRobin
pub mod Inflight
pub mod Accounting
pub mod Starting
pub mod Discoveries
pub mod Greeting
pub mod Callbacks
pub mod Accept
pub mod Server
pub mod Dispatching
pub mod GivingUp
mod Tests
