-- ===== src/Worker.antt =====
-- The worker: worker/*.py.
pub mod Database
pub mod Persistence
pub mod Processor
pub mod ExtractionLog
