-- ===== src/Examples/Hdlc.antt =====
-- Runs of the HDLC codec and stream decoder (lib/dlms-hdlc).
use dlms.Prelude.{
  ℕ, ◌≤◌, ◌<◌, ◌≡◌, refl, sym, ap, ◌∙◌, ◌≢◌, ◌⊎◌, inl, inr, true, false, some, List, [], ◌∷◌, ◌++◌,
  arith, length, drop, replicate, All, concat, done, fail, IsDone, Bytes, bytes, Allocator,
}
use dlms.Hdlc.Types.{ok, invalid_frame_type, invalid_address, HdlcFrameBuffer, HdlcCodecLimits}
use dlms.Hdlc.Address.{
  from_bytes_loop, from_bytes, from_raw, is_supported_encoded_size, maximum_raw_value, encode_loop,
  encode_address, make_server_address,
}
use dlms.Hdlc.Address.Laws.{IsAddress, from_bytes-IsAddress, from_bytes-encode_address}
use dlms.Hdlc.Address.Server.{
  server_address, make_server_address-total, make_server_address-injective,
}
use dlms.Hdlc.Control.{
  information, supervisory, unnumbered, is_supported_unnumbered, decode_control, encode_control,
  frame_kind, supervisory_kind, unnumbered_kind, decode_control-kinds,
}
use dlms.Hdlc.Crc.{shift_crc, shift_bits, update_crc, crc_loop, calculate_hdlc_crc}
use dlms.Hdlc.Crc.Laws.{crc_detects_byte_error}
use dlms.Hdlc.Codec.Encode.{
  effective_maximum_frame_size, effective_maximum_information_field_size, format_field_length_of,
  frame_format_of, encode_frame_to_buffer, encode_frame,
}
use dlms.Hdlc.Codec.Decode.{decode_frame}
use dlms.Hdlc.Codec.Wire.{view, wire, Fits, encode_frame-wire, header_of, hcs_of, body_of, fcs_of}
use dlms.Hdlc.Codec.RoundTrip.{IsFrame, decode_frame-encode_frame}
use dlms.Hdlc.Stream.{
  HdlcStreamDecoderOptions, ignore_until_opening_flag, fresh, push_all, frame_round,
}
use dlms.Hdlc.Stream.Whole.{
  IsAccepted, Burst, frames_of, stream_of, IsBurst, push_all-stream, frame_loop_ends,
}
use dlms.Hdlc.Segmentation.{
  effective_reassembled_size, make_frame_buffer, segment_information, push_frame, fresh_reassembler,
}
use dlms.Hdlc.Codec.Standard.{
  HasRoom, standard_header, standard_body, standard_frame, encode_frame_to_buffer-standard,
}
use dlms.Hdlc.Segmentation.Split.{Splits, segment_information-Splits}
use dlms.Hdlc.Segmentation.Reassembly.{push_frames, push_frames-Splits, push_next-oversize, holding}
use dlms.Framing.{drain, stuck}

abbrev granted : Allocator
granted n = true

abbrev limits : HdlcCodecLimits
limits = record {
  maximum_frame_size = 32;
  maximum_information_field_size = 4;
  maximum_reassembled_information_size = 6;
}

-- An I-frame from client 0x10 to server 1.
abbrev data_frame : HdlcFrameBuffer
data_frame = record {
  segmented = false;
  destination = record { raw_value = 1; encoded_size = 1 };
  source = record { raw_value = 0x10; encoded_size = 1 };
  control = record { control_value = 0x10 };
  information = 0xe6 ∷ 0x41 ∷ [];
}

abbrev data_wire : Bytes
data_wire = 0x7e ∷ 0xa0 ∷ 11 ∷ 3 ∷ 0x21 ∷ 0x10 ∷ 0xa8 ∷ 0x20 ∷ 0xe6 ∷ 0x41 ∷ 0x1a ∷ 0x12 ∷ 0x7e ∷ []

data-wire : wire data_frame ≡ data_wire
unfolding wire body_of fcs_of hcs_of header_of encode_loop frame_format_of format_field_length_of
    calculate_hdlc_crc crc_loop update_crc shift_bits shift_crc
data-wire = refl

data-IsFrame : IsFrame data_frame
unfolding decode_control
data-IsFrame = record {
  destination_ok = inl (refl, omega arith);
  source_ok = inl (refl, omega arith);
  control_byte = omega arith;
  control_ok = refl;
  information_bytes = ground arith;
}

data-Fits : Fits limits data_frame
unfolding effective_maximum_frame_size effective_maximum_information_field_size
    format_field_length_of
data-Fits = record {
  information_fits = omega arith;
  length_fits = omega arith;
  frame_fits = omega arith;
}

data-encodes : encode_frame granted (view data_frame) limits ≡ done data_wire
data-encodes = encode_frame-wire granted data_frame limits data-Fits refl ∙ ap done data-wire

address-read :
    from_bytes (bytes (4 ∷ 0x59 ∷ 7 ∷ [])) ≡ done (record { raw_value = 300; encoded_size = 2 }, 2)
unfolding from_bytes from_bytes_loop is_supported_encoded_size
address-read = refl

from_bytes-IsAddress_example :
    IsAddress (record { raw_value = 300; encoded_size = 2 })
    × (◌≡◌ {A = ℕ} 2 2)
    × (2 ≤ length {A = ℕ} (4 ∷ 0x59 ∷ 7 ∷ []))
from_bytes-IsAddress_example =
    from_bytes-IsAddress (4 ∷ 0x59 ∷ 7 ∷ []) (record { raw_value = 300; encoded_size = 2 }) 2
      address-read

address-written :
    encode_address (record { raw_value = 300; encoded_size = 2 }) (bytes (0 ∷ 0 ∷ []))
    ≡ done (4 ∷ 0x59 ∷ [])
unfolding encode_address encode_loop
address-written = refl

from_bytes-encode_address_example :
    from_bytes (bytes (4 ∷ 0x59 ∷ 7 ∷ [])) ≡ done (record { raw_value = 300; encoded_size = 2 }, 2)
from_bytes-encode_address_example =
    from_bytes-encode_address (record { raw_value = 300; encoded_size = 2 }) (0 ∷ 0 ∷ [])
      (4 ∷ 0x59 ∷ []) (7 ∷ []) (inr (inl (refl, omega arith))) address-written

make_server_address-total_example :
    ((1 ≤ 0x3fff)
      × (17 ≤ 0x3fff)
      × (make_server_address 1 17 ≡ done (server_address 1 17))
      × IsAddress (server_address 1 17))
    ⊎ (((0x3fff < 1) ⊎ (0x3fff < 17)) × (make_server_address 1 17 ≡ fail invalid_address))
make_server_address-total_example = make_server_address-total 1 17

server-made : make_server_address 1 17 ≡ done (record { raw_value = 145; encoded_size = 2 })
unfolding make_server_address from_raw is_supported_encoded_size maximum_raw_value
server-made = refl

make_server_address-injective_example : (◌≡◌ {A = ℕ} 1 1) × (◌≡◌ {A = ℕ} 17 17)
make_server_address-injective_example =
    make_server_address-injective 1 17 1 17 (record { raw_value = 145; encoded_size = 2 })
      server-made server-made

snrm-decodes : decode_control 0x93 ≡ done (record { control_value = 0x93 })
unfolding decode_control is_supported_unnumbered
snrm-decodes = refl

decode_control-kinds_example :
    (encode_control (record { control_value = 0x93 }) ≡ done 0x93)
    × ((frame_kind (record { control_value = 0x93 }) ≡ information)
          × (supervisory_kind (record { control_value = 0x93 }) ≡ fail invalid_frame_type)
          × (unnumbered_kind (record { control_value = 0x93 }) ≡ fail invalid_frame_type)
        ⊎ ((frame_kind (record { control_value = 0x93 }) ≡ supervisory)
              × IsDone (supervisory_kind (record { control_value = 0x93 }))
              × (unnumbered_kind (record { control_value = 0x93 }) ≡ fail invalid_frame_type)
            ⊎ (frame_kind (record { control_value = 0x93 }) ≡ unnumbered)
              × (supervisory_kind (record { control_value = 0x93 }) ≡ fail invalid_frame_type)
              × IsDone (unnumbered_kind (record { control_value = 0x93 }))))
decode_control-kinds_example =
    decode_control-kinds 0x93 (record { control_value = 0x93 }) snrm-decodes

crc_detects_byte_error_example :
    calculate_hdlc_crc (bytes ((0xa0 ∷ 11 ∷ []) ++ 3 ∷ 0x21 ∷ []))
    ≢ calculate_hdlc_crc (bytes ((0xa0 ∷ 11 ∷ []) ++ 5 ∷ 0x21 ∷ []))
crc_detects_byte_error_example =
    crc_detects_byte_error (0xa0 ∷ 11 ∷ []) (0x21 ∷ []) 3 5 (ground arith) (ground arith)
      (omega arith) (omega arith) (ground arith)

encode_frame_to_buffer-standard_example :
    (HasRoom limits data_frame (replicate 14 0)
      × (encode_frame_to_buffer (view data_frame) limits (bytes (replicate 14 0)) ≡ record {
        status = ok;
        written_size = 13;
        output = bytes (standard_frame data_frame ++ drop 13 (replicate 14 0));
      }))
    ⊎ ((¬ HasRoom limits data_frame (replicate 14 0))
        × ((encode_frame_to_buffer (view data_frame) limits (bytes (replicate 14 0))).status ≢ ok)
        × ((encode_frame_to_buffer (view data_frame) limits (bytes (replicate 14 0))).output
            ≡ bytes (replicate 14 0)))
encode_frame_to_buffer-standard_example =
    encode_frame_to_buffer-standard data_frame limits (replicate 14 0) data-IsFrame

data-standard : standard_frame data_frame ≡ data_wire
unfolding standard_frame standard_body standard_header
data-standard = refl

decode_frame-encode_frame_example : decode_frame granted (bytes data_wire) limits ≡ done data_frame
decode_frame-encode_frame_example =
    decode_frame-encode_frame granted data_frame limits data_wire data-IsFrame data-encodes

abbrev decoder_options : HdlcStreamDecoderOptions
decoder_options = record { limits = limits; noise_policy = ignore_until_opening_flag }

-- A byte of line noise in front of the frame.
abbrev noisy : Burst
noisy = record { noise = 0x55 ∷ []; frame = data_frame }

abbrev cuts : List Bytes
cuts =
    (0x55 ∷ 0x7e ∷ 0xa0 ∷ [])
    ∷ (11 ∷ 3 ∷ 0x21 ∷ 0x10 ∷ 0xa8 ∷ 0x20 ∷ 0xe6 ∷ [])
    ∷ (0x41 ∷ 0x1a ∷ 0x12 ∷ 0x7e ∷ [])
    ∷ []

cuts-stream : concat cuts ≡ stream_of (noisy ∷ [])
unfolding stream_of
cuts-stream = sym (ap (λ w. 0x55 ∷ (w ++ [])) data-wire)

noisy-IsBurst : IsBurst decoder_options noisy
noisy-IsBurst = record {
  dropped = (ground arith, inl refl);
  valid = data-IsFrame;
  fits = data-Fits;
}

push_all-stream_example :
    ((push_all granted (fresh decoder_options) cuts).frames ≡ frames_of (noisy ∷ []))
    × ((push_all granted (fresh decoder_options) cuts).decoder.buffer ≡ [])
    × All IsAccepted (push_all granted (fresh decoder_options) cuts).statuses
push_all-stream_example =
    push_all-stream granted decoder_options (noisy ∷ []) cuts (λ n. refl) (noisy-IsBurst, tt)
      cuts-stream

frame_loop_ends_example : drain (frame_round granted decoder_options) data_wire [] ≢ stuck
frame_loop_ends_example = frame_loop_ends granted decoder_options data_wire []

abbrev long_field : Bytes
long_field = 1 ∷ 2 ∷ 3 ∷ 4 ∷ 5 ∷ []

segment_information-Splits_example :
    (frames : List HdlcFrameBuffer) × (segment_information granted limits
        (view data_frame)
        (bytes long_field)
      ≡ some (done frames))
    × Splits (view data_frame) 4 long_field frames
segment_information-Splits_example =
    segment_information-Splits granted (λ n. refl) limits (view data_frame) long_field

abbrev first_segment : HdlcFrameBuffer
first_segment = record data_frame { segmented = true; information = 1 ∷ 2 ∷ 3 ∷ 4 ∷ [] }

abbrev last_segment : HdlcFrameBuffer
last_segment = record data_frame { information = 5 ∷ [] }

segments-split : Splits (view data_frame) 4 long_field (first_segment ∷ last_segment ∷ [])
unfolding make_frame_buffer
segments-split =
    (1 ∷ 2 ∷ 3 ∷ 4 ∷ [], 5 ∷ [], refl, omega arith, omega arith, refl, (refl, omega arith))

reassembled-limit : effective_reassembled_size limits ≡ 6
unfolding effective_reassembled_size
reassembled-limit = refl

push_frames-Splits_example :
    push_frames granted (fresh_reassembler limits) first_segment (last_segment ∷ []) ≡ record {
      status = ok;
      completed = some (make_frame_buffer (view data_frame) false long_field);
      state = fresh_reassembler limits;
    }
push_frames-Splits_example =
    push_frames-Splits granted (λ n. refl) limits (omega (arith, reassembled-limit))
      (view data_frame) 4 long_field first_segment (last_segment ∷ []) segments-split
      (omega (arith, reassembled-limit))

push_next-oversize_example :
    (frame : HdlcFrameBuffer) × ((push_frame granted
        (holding limits (view data_frame) (9 ∷ []))
        (make_frame_buffer (view data_frame) false (replicate 7 1))).completed
      ≡ some frame)
    × (effective_reassembled_size limits < length frame.information)
push_next-oversize_example =
    push_next-oversize granted (λ n. refl) limits (view data_frame) (9 ∷ []) (replicate 7 1)
      (omega (arith, reassembled-limit)) (omega arith)
