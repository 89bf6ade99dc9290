-- ===== src/Time.antt =====
-- flame\time: timers.
pub mod Ticker
