-- ===== src/Collector.antt =====
-- collector/: polls OpenSky, normalizes its state vectors and posts them as telemetry.
pub mod Normalizer
pub mod OpenSky
pub mod Producer
