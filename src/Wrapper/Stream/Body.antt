-- ===== src/Wrapper/Stream/Body.antt =====
-- The body of the loop in `WrapperStreamDecoder::Push`, and that it is a framing.
use dlms.Prelude.{
  ◌+◌, ◌-◌, ◌≤◌, ◌<◌, ◌≡◌, refl, inl, inr, [], ◌++◌, arith, ltb, if◌then◌else◌, length, take, drop,
  length-append, length-drop, take-append_le, drop-append_le, get_or-append_lt, Result, done, fail,
  Result-cases, Bytes, bytes, Allocator,
}
use dlms.Wrapper.Codec.{
  decode_wrapper_header, read_wrapper_header, validate_wrapper_header, decode_wpdu,
}
use dlms.Wrapper.Types.{
  WrapperStatus, ok, need_more_data, invalid_length, WrapperHeader, WrapperFrameBuffer,
  WrapperCodecLimits, wrapper_header_size,
}
use dlms.Framing.{Round, wait, refuse, emit, Framing}

module _ (alloc : Allocator) (limits : WrapperCodecLimits) where
  -- From `frameSize` on. The growth of the frame list itself is taken to succeed.
  unfoldable pub take_frame : Bytes → WrapperHeader → Round WrapperFrameBuffer WrapperStatus
  take_frame buffer header =
      let frame_size = wrapper_header_size + header.data_length in
      if ltb (length buffer) frame_size
      then wait buffer
      else elim (decode_wpdu alloc (bytes (take frame_size buffer)) limits) [
        | done frame ↦ emit frame (drop frame_size buffer)
        | fail s ↦ refuse s
      ]

  -- From the validation of the header on.
  unfoldable pub with_header : Bytes → WrapperHeader → Round WrapperFrameBuffer WrapperStatus
  unfolding take_frame validate_wrapper_header
  with_header buffer header =
      elim (validate_wrapper_header header limits (length buffer - wrapper_header_size)) [
        | need_more_data ↦ wait buffer
        | ok ↦ take_frame buffer header
        | invalid_length ↦ take_frame buffer header
        | other ↦ refuse other
      ]

  unfoldable pub wpdu_round : Bytes → Round WrapperFrameBuffer WrapperStatus
  wpdu_round buffer =
      if ltb (length buffer) wrapper_header_size
      then wait buffer
      else elim (decode_wrapper_header (bytes buffer)) [
        | done header ↦ with_header buffer header
        | fail s ↦ refuse s
      ]

  with_header-wait : (a r : Bytes) (header : WrapperHeader) → with_header a header ≡ wait r → a ≡ r
  unfolding with_header
  with_header-wait a r header e = ground arith

  with_header-refuse :
      (a b : Bytes) (header : WrapperHeader) (s : WrapperStatus)
      → 8 ≤ length a
      → with_header a header ≡ refuse s
      → with_header (a ++ b) header ≡ refuse s
  unfolding with_header
  with_header-refuse a b header s h e =
      ground (arith, length-append a b, take-append_le (8 + header.data_length) a b)

  with_header-emit :
      (a b r : Bytes) (header : WrapperHeader) (f : WrapperFrameBuffer)
      → 8 ≤ length a
      → with_header a header ≡ emit f r
      → with_header (a ++ b) header ≡ emit f (r ++ b)
  unfolding with_header
  with_header-emit a b r header f h e = ground (
    arith,
    length-append a b,
    take-append_le (8 + header.data_length) a b,
    drop-append_le (8 + header.data_length) a b,
  )

  with_header-shrinks :
      (a r : Bytes) (header : WrapperHeader) (f : WrapperFrameBuffer)
      → 8 ≤ length a
      → with_header a header ≡ emit f r
      → length r < length a
  unfolding with_header
  with_header-shrinks a r header f h e = ground (arith, length-drop (8 + header.data_length) a)

  read_wrapper_header-append :
      (a b : Bytes) → 8 ≤ length a → read_wrapper_header (a ++ b) ≡ read_wrapper_header a
  unfolding read_wrapper_header
  read_wrapper_header-append a b h = rw (
    get_or-append_lt a b 0 0 (omega arith),
    get_or-append_lt a b (0 + 1) 0 (omega arith),
    get_or-append_lt a b 2 0 (omega arith),
    get_or-append_lt a b (2 + 1) 0 (omega arith),
    get_or-append_lt a b 4 0 (omega arith),
    get_or-append_lt a b (4 + 1) 0 (omega arith),
    get_or-append_lt a b 6 0 (omega arith),
    get_or-append_lt a b (6 + 1) 0 (omega arith),
  )

  decode_wrapper_header-append :
      (a b : Bytes)
      → 8 ≤ length a
      → decode_wrapper_header (bytes (a ++ b)) ≡ decode_wrapper_header (bytes a)
  unfolding decode_wrapper_header
  decode_wrapper_header-append a b h =
      ground (arith, read_wrapper_header-append a b, length-append a b)

  pub wpdu_round-wait :
      (a b r : Bytes) → wpdu_round a ≡ wait r → wpdu_round (a ++ b) ≡ wpdu_round (r ++ b)
  wpdu_round-wait a b r e = rw (same (decode_wrapper_header (bytes a)) refl)
    where
      same : (m : Result WrapperStatus WrapperHeader) → decode_wrapper_header (bytes a) ≡ m → a ≡ r
      same (done header) q = unfold wpdu_round in ground (arith, with_header-wait a r header)
      same (fail s) q = unfold wpdu_round in ground arith

  pub wpdu_round-refuse :
      (a b : Bytes) (s : WrapperStatus) → wpdu_round a ≡ refuse s → wpdu_round (a ++ b) ≡ refuse s
  unfolding wpdu_round
  wpdu_round-refuse a b s e = elim (Result-cases (decode_wrapper_header (bytes a))) [
    | inl (header, q) ↦ ground (
      arith,
      length-append a b,
      decode_wrapper_header-append a b,
      with_header-refuse a b header s,
    )
    | inr (t, q) ↦ ground (arith, length-append a b, decode_wrapper_header-append a b)
  ]

  pub wpdu_round-emit :
      (a b r : Bytes) (f : WrapperFrameBuffer)
      → wpdu_round a ≡ emit f r
      → wpdu_round (a ++ b) ≡ emit f (r ++ b)
  unfolding wpdu_round
  wpdu_round-emit a b r f e = elim (Result-cases (decode_wrapper_header (bytes a))) [
    | inl (header, q) ↦ ground (
      arith,
      length-append a b,
      decode_wrapper_header-append a b,
      with_header-emit a b r header f,
    )
    | inr (t, q) ↦ ground arith
  ]

  pub wpdu_round-shrinks :
      (a r : Bytes) (f : WrapperFrameBuffer) → wpdu_round a ≡ emit f r → length r < length a
  unfolding wpdu_round
  wpdu_round-shrinks a r f e = elim (Result-cases (decode_wrapper_header (bytes a))) [
    | inl (header, q) ↦ ground (arith, with_header-shrinks a r header f)
    | inr (t, q) ↦ ground arith
  ]

  pub wpdu_round-empty : wpdu_round [] ≡ wait []
  unfolding wpdu_round
  wpdu_round-empty = refl

  abbrev pub wpdu_framing : Framing WrapperFrameBuffer WrapperStatus
  wpdu_framing = record {
    round = wpdu_round;
    round-empty = wpdu_round-empty;
    round-wait = wpdu_round-wait;
    round-refuse = wpdu_round-refuse;
    round-emit = wpdu_round-emit;
    round-shrinks = wpdu_round-shrinks;
  }
