-- ===== src/Llc.antt =====
-- lib/dlms-llc: the three-byte LLC header and the LPDU codec.
pub mod Header
pub mod Codec
pub mod RoundTrip
