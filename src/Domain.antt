-- ===== src/Domain.antt =====
-- src/oraja_training/domain: the values that the other packages exchange.
pub mod Play
