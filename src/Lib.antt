-- ===== src/Lib.antt =====
-- The link layers, the APDU codecs and the APDU protection of the DLMS/COSEM framework: the wrapper of
-- TCP and UDP profiles (lib/dlms-wrapper), the LLC sublayer (lib/dlms-llc), HDLC (lib/dlms-hdlc), the
-- codecs of BER, A-XDR, Data values and the GET, SET and ACTION services (lib/dlms-apdu), and keys,
-- invocation counters and ciphered APDUs (lib/dlms-security).
--
-- A request is encoded as an APDU, which the security layer may seal under the next invocation
-- counter; the peer opens it, checks the counter against those it has taken, and decodes it. An APDU
-- reaches a TCP connection as the data of a wrapper WPDU, and a serial line as the LSDU of an
-- LLC LPDU, which is the Information field of an HDLC frame, split into segments where it is long. On
-- the way back a stream decoder finds the frames in the bytes that arrive in chunks. The HDLC session
-- connects the two sides, negotiates their limits and numbers the frames.
--
-- Which file models what:
--   Wrapper/Types, Ports     wrapper_error.hpp, wrapper_frame.hpp, wrapper_ports.hpp, wrapper_ports.cpp
--   Wrapper/Codec            wrapper_codec.cpp: EncodeWpdu, DecodeWpdu and what they call
--   Wrapper/RoundTrip        round trips of the codec
--   Wrapper/Stream           wrapper_stream_decoder.cpp: the body of the loop, Push, whole streams
--   Llc/Header, Codec        llc_header.cpp, llc_codec.cpp; Llc/RoundTrip for the round trips
--   Hdlc/Types               hdlc_error.hpp, hdlc_frame.hpp, hdlc_types.hpp
--   Hdlc/Address             hdlc_address.cpp, with Laws and Server
--   Hdlc/Control, Crc        hdlc_control.cpp, hdlc_crc.cpp; Crc/Laws and Serial prove
--   Hdlc/Codec               hdlc_codec.cpp: Encode and Decode; Wire, Reads, RoundTrip and Standard
--                            prove
--   Hdlc/Stream              hdlc_stream_decoder.cpp: Flag, Body, Decoder; Laws and Whole prove
--   Hdlc/Segmentation        hdlc_segmentation.cpp, with Split and Reassembly
--   Hdlc/Session             hdlc_session.cpp: Negotiation for the fields of SNRM and UA, State for the
--                            members, Build and Receive for the operations; Fields, Window,
--                            Refusals, Counts, Outstanding, Connect and Delivery prove
--   Apdu/Types               apdu_error.hpp, and how a call of the codecs ends
--   Apdu/Reader, Writer      apdu_reader.cpp, apdu_writer.cpp; Wire relates what is written and read
--   Apdu/Octets, Items       the loops over octets and over lists that the codecs write out
--   Apdu/Axdr, Ber           axdr.cpp, ber.cpp, with RoundTrip, Laws and Fuel
--   Apdu/Data                data.cpp; Octets, Valid, RoundTrip, Laws and Depth prove
--   Apdu/Descriptor          cosem_descriptor.cpp
--   Apdu/Services            what get.cpp, set.cpp and action.cpp share
--   Apdu/Get, Set, Action    get.cpp, set.cpp, action.cpp; Wire and Laws prove
--   Security/Types, Keys     security_status.hpp, security_types.cpp, in_memory_key_store.cpp
--   Security/Counters        in_memory_invocation_counter_store.cpp, with Laws
--   Security/Gcm             suite0_aes_gcm.cpp over the calls of OpenSSL, with Laws
--   Security/Processor       ciphered_apdu_processor.cpp; RoundTrip, Laws and Replay prove
--   Framing                  no code: the loop that both stream decoders run, and its laws
--   Prelude                  no code: shared helpers; Examples runs the models on small inputs
--
-- Names are those of the source in snake case, EncodeWpdu as encode_wpdu. A pointer with its size is a
-- Span, null or bytes. A function with a status and an output that is cleared on failure returns a
-- Result; an encoder into a buffer of its caller returns a Written: the status, writtenSize and the
-- buffer as it is left. A std::bad_alloc is modelled by a parameter alloc, which tells for each size
-- whether a vector may grow to it; the growth of a list of frames and the copy of a whole frame are
-- taken to succeed, and so is that of the session's Information field. The parameter stands for
-- std::bad_alloc alone: a std::length_error, of a size above max_size, which EncodeFrame and EncodeLpdu
-- do not catch, is taken not to occur. An object is the record of
-- its members, and a method returns the new record.
--
-- A decoder of lib/dlms-apdu is a Parser, a function from the span that is left to a value and the
-- span behind it; an encoder is a function on the writer, the bytes in front of its position and the
-- span behind it. Of a call that fails the status is kept, and not the bytes it wrote or took before.
-- The error `thrown` stands for the exception of a `reserve` that the allocator refuses. A structure
-- with a type or choice and a field for each is a data type with a constructor for each, and a last
-- one for a type or choice outside of the enumeration; a field with a flag beside it is an option. A
-- std::int64_t is its 64-bit pattern. OpenSSL is the record Evp of its calls, a parameter, and IsGcm is
-- what it documents of them; the two interfaces of the stores of lib/dlms-security are taken at the
-- implementations that the library has.
--
-- Bytes and machine integers are natural numbers. Where the source casts to a narrower integer the
-- model has the remainder, and where it masks, shifts or joins bits that do not overlap the model
-- divides, multiplies and adds. std::size_t is taken as 64 bits wide where the code can wrap around:
-- in the reassembler's length check and in the LLC's size check.
--
-- Bounds. The loop of a stream decoder runs on fuel, one round more than the buffer has bytes, since
-- each frame takes a byte at least. The segmenter's loop has one round more than the field has bytes,
-- each segment taking one at least, and the loop over the parameters of a SNRM or UA one more than
-- its group has bytes, each parameter taking two at least. The octets of a length are at most eight, the size of a
-- std::size_t, and the validation of BER runs as many rounds as there are bytes, each value taking two
-- at least.
--
-- Not modelled: the C interfaces and the tables of status names, which copy values; the APDUs of ACSE,
-- Initiate and the envelopes of xdlms.cpp, the authenticators of high level security and the key wrap;
-- the sockets and serial ports below; and the layers above, from the association to server and client.
pub mod Prelude
pub mod Wrapper
pub mod Framing
pub mod Llc
pub mod Hdlc
pub mod Apdu
pub mod Security
pub mod Examples
