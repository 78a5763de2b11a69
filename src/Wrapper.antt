-- ===== src/Wrapper.antt =====
-- lib/dlms-wrapper: the WPDU codec, its port classes and its stream decoder.
pub mod Types
pub mod Ports
pub mod Codec
pub mod RoundTrip
pub mod Stream
