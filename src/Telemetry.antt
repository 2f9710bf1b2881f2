-- ===== src/Telemetry.antt =====
-- src/telemetry: the statistics of a bridge.
pub mod BridgeStats
