-- ===== src/Core.antt =====
-- The parts that everything else stands on: coroutines and worker threads.
pub mod Coroutine
pub mod ThreadWorker
