-- ===== src/Ingest.antt =====
-- How a call comes into the server: backend/internal/handler/calls, with the tables that it fills,
-- the duplicate check and the pruning of backend/internal/audio.
pub mod Tables
pub mod Rows
pub mod Limiter
pub mod Duplicate
pub mod Sources
pub mod Presets
pub mod Pruner
pub mod Upload
pub mod UploadV1
