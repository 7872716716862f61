-- ===== src/Features.antt =====
-- src/oraja_training/features: what is read of the charts.
pub mod Songinfo
