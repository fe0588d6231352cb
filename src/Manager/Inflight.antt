-- ===== src/Manager/Inflight.antt =====
-- Which steps leave the inbound connections in flight and the scheduler's marks alone, and what the
-- three handlers of the scheduler do to them.
pub mod Quiet
pub mod Handlers
