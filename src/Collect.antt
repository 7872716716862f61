-- ===== src/Collect.antt =====
-- src/oraja_training/collect: reading beatoraja's score tables into the assistant database.
pub mod Normalize
pub mod Poller
