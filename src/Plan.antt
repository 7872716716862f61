-- ===== src/Plan.antt =====
-- src/oraja_training/plan: the daily menu and the self-experiment.
pub mod Menu
pub mod Experiment
