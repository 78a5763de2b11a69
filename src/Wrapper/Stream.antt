-- ===== src/Wrapper/Stream.antt =====
-- lib/dlms-wrapper/src/wrapper/wrapper_stream_decoder.cpp: WPDUs out of a byte stream.
mod Body
mod Decoder
pub mod Whole
unfoldable pub use Body.*
unfoldable pub use Decoder.*
