-- ===== src/Serve.antt =====
-- src/oraja_training/serve: the progress service and its sender.
pub mod Monitor
pub mod Controller
pub mod Counts
