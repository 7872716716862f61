-- ===== src/Container.antt =====
-- src/oraja_training/container: the job that runs beside the Cloudflare service.
pub mod Json
pub mod Formats
pub mod Manifest
