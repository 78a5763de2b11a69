-- ===== src/Wrapper/RoundTrip.antt =====
-- wrapper_codec.cpp: round trips of `EncodeWpdu` and `DecodeWpdu`.
use dlms.Prelude.{
  ℕ, ◌+◌, ◌*◌, ◌≤◌, ◌<◌, ◌≡◌, refl, ap, true, [], ◌∷◌, ◌++◌, arith, ◌==◌, if◌then◌else◌, length,
  drop, replicate, length-append, length-replicate, drop-drop, take-append_length, All, done, Bytes,
  IsByte, null, bytes, Allocator, append_assoc, append-nil, eq-nil, take-length,
}
use dlms.Wrapper.Codec.{
  header_bytes, read_wrapper_header, decode_wrapper_header, write_wpdu, encode_wpdu,
  decode_wpdu_view, decode_wpdu,
}
use dlms.Wrapper.Types.{ok, WrapperHeader, WrapperFrame, WrapperFrameBuffer, WrapperCodecLimits}

-- A `WrapperFrame` over the bytes of an owning frame.
abbrev pub view : WrapperFrameBuffer → WrapperFrame
view frame = record {
  source_port = frame.source_port;
  destination_port = frame.destination_port;
  payload = bytes frame.payload;
}

abbrev pub header_of : WrapperFrameBuffer → WrapperHeader
header_of frame = record {
  version = 1;
  source_port = frame.source_port;
  destination_port = frame.destination_port;
  data_length = length frame.payload;
}

-- The WPDU of a frame: eight header bytes and the data.
unfoldable pub wire : WrapperFrameBuffer → Bytes
wire frame = header_bytes (header_of frame) ++ frame.payload

-- What the fields' types and the guards of the encoder ask of a frame.
pub record IsEncodable (limits : WrapperCodecLimits) (frame : WrapperFrameBuffer) : Type 0 where
  pub source : 0 < frame.source_port
  pub source_u16 : frame.source_port < 65536
  pub destination : 0 < frame.destination_port
  pub destination_u16 : frame.destination_port < 65536
  pub length_u16 : length frame.payload ≤ 65535
  pub data_fits : length frame.payload ≤ limits.maximum_data_size
  pub frame_fits : 8 + length frame.payload ≤ limits.maximum_frame_size

pub length-wire : (frame : WrapperFrameBuffer) → length (wire frame) ≡ 8 + length frame.payload
unfolding wire header_bytes
length-wire frame = omega arith

pub read-header_bytes :
    (header : WrapperHeader) (rest : Bytes)
    → header.version < 65536
    → header.source_port < 65536
    → header.destination_port < 65536
    → header.data_length < 65536
    → read_wrapper_header (header_bytes header ++ rest) ≡ header
unfolding read_wrapper_header header_bytes
read-header_bytes header rest v s d l = ground arith

write_wpdu-wire :
    (frame : WrapperFrameBuffer) (output : Bytes)
    → length frame.payload ≤ 65535
    → 8 + length frame.payload ≤ length output
    → write_wpdu (view frame) output ≡ record {
      status = ok;
      written_size = 8 + length frame.payload;
      output = bytes (wire frame ++ drop (8 + length frame.payload) output);
    }
unfolding write_wpdu wire
write_wpdu-wire frame output h fits = ground (arith, drop-drop 8 (length frame.payload) output)

pub encode_wpdu-wire :
    (alloc : Allocator) (frame : WrapperFrameBuffer) (limits : WrapperCodecLimits)
    → IsEncodable limits frame
    → alloc (8 + length frame.payload) ≡ true
    → encode_wpdu alloc (view frame) limits ≡ done (wire frame)
unfolding encode_wpdu
encode_wpdu-wire alloc frame limits v a = ground (
  arith,
  write_wpdu-wire frame (replicate (8 + length frame.payload) 0),
  length-replicate {A = ℕ} (8 + length frame.payload) 0,
  length-wire frame,
  take-append_length (8 + length frame.payload) (wire frame)
      (drop (8 + length frame.payload) (replicate (8 + length frame.payload) 0)),
)

-- `EncodeWpdu` succeeds only on such a frame, if its ports are 16-bit numbers.
encode_wpdu-IsEncodable :
    (alloc : Allocator) (frame : WrapperFrameBuffer) (limits : WrapperCodecLimits) (w : Bytes)
    → frame.source_port < 65536
    → frame.destination_port < 65536
    → encode_wpdu alloc (view frame) limits ≡ done w
    → IsEncodable limits frame × (alloc (8 + length frame.payload) ≡ true)
unfolding encode_wpdu
encode_wpdu-IsEncodable alloc frame limits w s d e = ground arith

drop-wire : (frame : WrapperFrameBuffer) → drop 8 (wire frame) ≡ frame.payload
unfolding wire header_bytes
drop-wire frame = refl

pub decode_wrapper_header-wire :
    (limits : WrapperCodecLimits) (frame : WrapperFrameBuffer) (rest : Bytes)
    → IsEncodable limits frame
    → decode_wrapper_header (bytes (wire frame ++ rest)) ≡ done (header_of frame)
unfolding decode_wrapper_header wire
decode_wrapper_header-wire limits frame rest v = ground (
  arith,
  append_assoc (header_bytes (header_of frame)) frame.payload rest,
  read-header_bytes (header_of frame) (frame.payload ++ rest),
  length-append (wire frame) rest,
  length-wire frame,
)

view-wire :
    (frame : WrapperFrameBuffer) (limits : WrapperCodecLimits)
    → IsEncodable limits frame
    → decode_wpdu_view (bytes (wire frame)) limits
      ≡ done (record (view frame) {
        payload = if length frame.payload == 0 then null 0 else bytes frame.payload;
      })
unfolding decode_wpdu_view
view-wire frame limits v = ground (
  arith,
  append-nil (wire frame),
  decode_wrapper_header-wire limits frame [] v,
  length-wire frame,
  drop-wire frame,
  take-length (length frame.payload) frame.payload,
)

pub decode_wpdu-wire :
    (alloc : Allocator) (frame : WrapperFrameBuffer) (limits : WrapperCodecLimits)
    → IsEncodable limits frame
    → alloc (length frame.payload) ≡ true
    → decode_wpdu alloc (bytes (wire frame)) limits ≡ done frame
unfolding decode_wpdu
decode_wpdu-wire alloc frame limits v a =
    ground (arith, view-wire frame limits v, eq-nil frame.payload)

-- Whatever `EncodeWpdu` produces for a frame with 16-bit ports, `DecodeWpdu` under the same limits
-- turns back into that frame, if the memory for its data is there.
pub decode_wpdu-encode_wpdu :
    (alloc : Allocator) (frame : WrapperFrameBuffer) (limits : WrapperCodecLimits) (w : Bytes)
    → frame.source_port < 65536
    → frame.destination_port < 65536
    → alloc (length frame.payload) ≡ true
    → encode_wpdu alloc (view frame) limits ≡ done w
    → decode_wpdu alloc (bytes w) limits ≡ done frame
decode_wpdu-encode_wpdu alloc frame limits w s d a e =
    let (v, a') = encode_wpdu-IsEncodable alloc frame limits w s d e in
    cc (e, encode_wpdu-wire alloc frame limits v a', decode_wpdu-wire alloc frame limits v a)

-- The same with the header taken apart.
decode_wpdu-eight :
    (alloc : Allocator) (a b c d e f g h : ℕ) (rest : Bytes) (limits : WrapperCodecLimits)
    (frame : WrapperFrameBuffer)
    → All IsByte (a ∷ b ∷ c ∷ d ∷ e ∷ f ∷ g ∷ h ∷ [])
    → decode_wpdu alloc (bytes (a ∷ b ∷ c ∷ d ∷ e ∷ f ∷ g ∷ h ∷ rest)) limits ≡ done frame
    → IsEncodable limits frame
      × (a ≡ 0)
      × (b ≡ 1)
      × (frame.source_port ≡ c * 256 + d)
      × (frame.destination_port ≡ e * 256 + f)
      × (length rest ≡ g * 256 + h)
      × (frame.payload ≡ rest)
unfolding decode_wpdu decode_wpdu_view decode_wrapper_header
decode_wpdu-eight alloc a b c d e f g h rest limits frame bs eq =
    ground (arith, take-length (g * 256 + h) rest, eq-nil rest)

eight-wire :
    (a b c d e f g h : ℕ) (rest : Bytes) (frame : WrapperFrameBuffer)
    → All IsByte (a ∷ b ∷ c ∷ d ∷ e ∷ f ∷ g ∷ h ∷ [])
    → a ≡ 0
    → b ≡ 1
    → frame.source_port ≡ c * 256 + d
    → frame.destination_port ≡ e * 256 + f
    → length rest ≡ g * 256 + h
    → frame.payload ≡ rest
    → wire frame ≡ a ∷ b ∷ c ∷ d ∷ e ∷ f ∷ g ∷ h ∷ rest
unfolding wire header_bytes
eight-wire a b c d e f g h rest frame bs ea eb es ed el ep = ground (arith, ap length ep)

-- A WPDU that decodes is the one that its frame has.
decode_wpdu-wire_inv :
    (alloc : Allocator) (w : Bytes) (limits : WrapperCodecLimits) (frame : WrapperFrameBuffer)
    → All IsByte w
    → decode_wpdu alloc (bytes w) limits ≡ done frame
    → IsEncodable limits frame × (wire frame ≡ w)
decode_wpdu-wire_inv alloc (a ∷ b ∷ c ∷ d ∷ e ∷ f ∷ g ∷ h ∷ rest) limits frame bs eq =
    let i = decode_wpdu-eight alloc a b c d e f g h rest limits frame (omega arith) eq in
    (i.0, ground (arith, eight-wire a b c d e f g h rest frame))
decode_wpdu-wire_inv alloc _ limits frame bs eq =
    absurd (unfold decode_wpdu decode_wpdu_view decode_wrapper_header in ground arith)

-- Whatever bytes `DecodeWpdu` accepts, `EncodeWpdu` under the same limits writes again for the
-- decoded frame, if the memory for them is there.
pub encode_wpdu-decode_wpdu :
    (alloc : Allocator) (w : Bytes) (limits : WrapperCodecLimits) (frame : WrapperFrameBuffer)
    → All IsByte w
    → alloc (length w) ≡ true
    → decode_wpdu alloc (bytes w) limits ≡ done frame
    → encode_wpdu alloc (view frame) limits ≡ done w
encode_wpdu-decode_wpdu alloc w limits frame bs a e =
    let (v, q) = decode_wpdu-wire_inv alloc w limits frame bs e in
    ground (arith, encode_wpdu-wire alloc frame limits v, length-wire frame, ap length q)
