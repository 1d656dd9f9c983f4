-- ===== src/Replay.antt =====
-- replay/: sends captured telemetry through the pipeline again.
pub mod Player
pub mod FaultInjection
pub mod ExportFixture
pub mod Report
