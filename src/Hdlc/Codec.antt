-- ===== src/Hdlc/Codec.antt =====
-- lib/dlms-hdlc/src/hdlc/hdlc_codec.cpp: the type 3 frame format. `Encode` and `Decode` translate
-- the file, `Wire`, `Reads`, `RoundTrip` and `Standard` are about their bytes.
pub mod Encode
pub mod Decode
pub mod Reads
pub mod Wire
pub mod RoundTrip
pub mod Standard
