-- ===== src/Ingestion.antt =====
-- ingestion/: the service that accepts telemetry and queues it for the worker.
pub mod Schemas
pub mod Routes
