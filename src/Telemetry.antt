-- ===== src/Telemetry.antt =====
-- core/src/telemetry.rs: Ring is `QosRing`, Recent what it keeps, Collector `Qos`, Summary its report, and Log the levels
-- and the filter of the logger.
pub mod Ring
pub mod Recent
pub mod Collector
pub mod Summary
pub mod Log
