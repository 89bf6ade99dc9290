-- ===== src/Log.antt =====
-- flame\log: the logger.
pub mod Logger
