-- ===== src/Batching.antt =====
-- model_server/batching.py: the sequences, the scheduler and its loop.
pub mod Sequences
pub mod Scheduler
pub mod RunLoop
