-- ===== src/Db.antt =====
-- src/oraja_training/db/store.py: the tables of the assistant database and their writers.
pub mod Plays
pub mod Cursors
pub mod State
pub mod Migrate
