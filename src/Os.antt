-- ===== src/Os.antt =====
-- flame\os: the processes and their messages.
pub mod Messenger
