-- ===== src/Framing.antt =====
-- The loop that lib/dlms-wrapper/src/wrapper/wrapper_stream_decoder.cpp and
-- lib/dlms-hdlc/src/hdlc/hdlc_stream_decoder.cpp share: take frames off the front of a byte buffer
-- until no whole frame is left. Each decoder gives the body of its loop as a `Framing`.
mod Loop
mod Chunks
unfoldable pub use Loop.*
unfoldable pub use Chunks.*
