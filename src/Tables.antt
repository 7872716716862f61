-- ===== src/Tables.antt =====
-- src/oraja_training/tables: difficulty tables.
pub mod Match
pub mod Fetch
pub mod Classification
