-- ===== src/Runners.antt =====
-- model_server/runners.py: what runs a batch.
pub mod Interface
pub mod Mock
pub mod Qwen
pub mod Weights
