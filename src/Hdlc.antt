-- ===== src/Hdlc.antt =====
-- lib/dlms-hdlc: addresses, control fields, checksums, frames, streams, segments and sessions.
pub mod Types
pub mod Address
pub mod Control
pub mod Crc
pub mod Codec
pub mod Stream
pub mod Segmentation
pub mod Session
