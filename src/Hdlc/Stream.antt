-- ===== src/Hdlc/Stream.antt =====
-- lib/dlms-hdlc/src/hdlc/hdlc_stream_decoder.cpp: frames out of a byte stream.
mod Flag
mod Body
pub mod Laws
mod Decoder
pub mod Whole
unfoldable pub use Flag.*
unfoldable pub use Body.*
unfoldable pub use Decoder.*
