-- ===== src/Examples/Wrapper.antt =====
-- Runs of the wrapper's codec and stream decoder (lib/dlms-wrapper).
use dlms.Prelude.{◌≡◌, refl, true, List, [], ◌∷◌, arith, All, concat, done, Bytes, bytes, Allocator}
use dlms.Wrapper.Types.{WrapperFrameBuffer, WrapperCodecLimits}
use dlms.Wrapper.Codec.{
  write_uint16, read_uint16, header_bytes, encode_wrapper_header, read_wrapper_header,
  decode_wrapper_header, validate_wrapper_header, write_wpdu, encode_wpdu_to_buffer, encode_wpdu,
  decode_wpdu_view, decode_wpdu,
}
use dlms.Wrapper.RoundTrip.{
  view, wire, IsEncodable, decode_wpdu-encode_wpdu, encode_wpdu-decode_wpdu,
}
use dlms.Wrapper.Stream.{fresh, push_all}
use dlms.Wrapper.Stream.Whole.{IsAccepted, wires, push_all-wires}

abbrev granted : Allocator
granted n = true

abbrev limits : WrapperCodecLimits
limits = record { maximum_data_size = 8; maximum_frame_size = 16 }

-- Two bytes from port 1 to port 16.
abbrev hello : WrapperFrameBuffer
hello = record { source_port = 1; destination_port = 16; payload = 0x41 ∷ 0x42 ∷ [] }

abbrev hello_bytes : Bytes
hello_bytes = 0 ∷ 1 ∷ 0 ∷ 1 ∷ 0 ∷ 16 ∷ 0 ∷ 2 ∷ 0x41 ∷ 0x42 ∷ []

hello-encodes : encode_wpdu granted (view hello) limits ≡ done hello_bytes
unfolding encode_wpdu encode_wpdu_to_buffer write_wpdu encode_wrapper_header header_bytes
    write_uint16 validate_wrapper_header
hello-encodes = refl

hello-decodes : decode_wpdu granted (bytes hello_bytes) limits ≡ done hello
unfolding decode_wpdu decode_wpdu_view decode_wrapper_header read_wrapper_header read_uint16
    validate_wrapper_header
hello-decodes = refl

hello-IsEncodable : IsEncodable limits hello
hello-IsEncodable = record {
  source = omega arith;
  source_u16 = omega arith;
  destination = omega arith;
  destination_u16 = omega arith;
  length_u16 = omega arith;
  data_fits = omega arith;
  frame_fits = omega arith;
}

decode_wpdu-encode_wpdu_example : decode_wpdu granted (bytes hello_bytes) limits ≡ done hello
decode_wpdu-encode_wpdu_example =
    decode_wpdu-encode_wpdu granted hello limits hello_bytes (omega arith) (omega arith) refl
      hello-encodes

encode_wpdu-decode_wpdu_example : encode_wpdu granted (view hello) limits ≡ done hello_bytes
encode_wpdu-decode_wpdu_example =
    encode_wpdu-decode_wpdu granted hello_bytes limits hello (ground arith) refl hello-decodes

-- The stream of two frames, cut inside the first header and inside the second frame.
abbrev cuts : List Bytes
cuts =
    (0 ∷ 1 ∷ 0 ∷ [])
    ∷ (1 ∷ 0 ∷ 16 ∷ 0 ∷ 2 ∷ 0x41 ∷ 0x42 ∷ 0 ∷ 1 ∷ [])
    ∷ (0 ∷ 1 ∷ 0 ∷ 16 ∷ 0 ∷ 2 ∷ 0x41 ∷ 0x42 ∷ [])
    ∷ []

cuts-wires : concat cuts ≡ wires (hello ∷ hello ∷ [])
unfolding wires wire header_bytes write_uint16
cuts-wires = refl

push_all-wires_example :
    ((push_all granted (fresh limits) cuts).frames ≡ hello ∷ hello ∷ [])
    × ((push_all granted (fresh limits) cuts).decoder.buffer ≡ [])
    × All IsAccepted (push_all granted (fresh limits) cuts).statuses
push_all-wires_example =
    push_all-wires granted limits (hello ∷ hello ∷ []) cuts (λ n. refl)
      (hello-IsEncodable, (hello-IsEncodable, tt)) cuts-wires
