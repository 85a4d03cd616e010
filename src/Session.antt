-- ===== src/Session.antt =====
-- cmux/src/session: what is kept of a running session.
pub mod Agent
pub mod Snapshot
pub mod Restore
pub mod Grouping
