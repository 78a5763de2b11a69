-- ===== src/Security.antt =====
-- lib/dlms-security: keys, invocation counters and the protection of APDUs.
pub mod Types
pub mod Keys
pub mod Counters
pub mod Gcm
pub mod Processor
