-- ===== src/Platform.antt =====
-- src/platform: what the hosted service keeps.
pub mod Metering
pub mod Status
