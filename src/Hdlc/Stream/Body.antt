-- ===== src/Hdlc/Stream/Body.antt =====
-- The body of the loop in `HdlcStreamDecoder::Push`.
use dlms.Prelude.{
  ℕ, suc, ◌+◌, ◌/◌, ◌%◌, Bool, true, false, ◌&&◌, not, [], ◌∷◌, ltb, ◌==◌, if◌then◌else◌, length,
  take, drop, done, fail, Bytes, bytes, Allocator,
}
use dlms.Hdlc.Types.{
  HdlcStatus, invalid_flag, invalid_frame_format, invalid_frame_length, frame_too_large,
  HdlcFrameBuffer, HdlcCodecLimits,
}
use dlms.Hdlc.Codec.Encode.{effective_maximum_frame_size}
use dlms.Hdlc.Codec.Decode.{decode_frame, frame_format_at}
use dlms.Hdlc.Stream.Flag.{from_flag}
use dlms.Framing.{Round, wait, refuse, emit}

pub data HdlcNoisePolicy : Type 0 where
  ignore_until_opening_flag report_error : HdlcNoisePolicy

pub record HdlcStreamDecoderOptions : Type 0 where
  pub limits : HdlcCodecLimits
  pub noise_policy : HdlcNoisePolicy

abbrev pub reports : HdlcNoisePolicy → Bool
reports ignore_until_opening_flag = false
reports report_error = true

module _ (alloc : Allocator) (options : HdlcStreamDecoderOptions) where
  -- From the check of the format field on. The growth of the frame list itself is taken to succeed.
  unfoldable pub with_format : ℕ → Bytes → Round HdlcFrameBuffer HdlcStatus
  with_format frame_format buffer =
      let format_field_length = frame_format % 2048 in
      let full_frame_size = format_field_length + 2 in
      if not (frame_format / 4096 == 10)
      then refuse invalid_frame_format
      else if ltb format_field_length 6
      then refuse invalid_frame_length
      else if ltb (effective_maximum_frame_size options.limits) full_frame_size
      then refuse frame_too_large
      else if ltb (length buffer) full_frame_size
      then wait buffer
      else elim (decode_frame alloc (bytes (take full_frame_size buffer)) options.limits) [
        | done frame ↦ emit frame (drop full_frame_size buffer)
        | fail s ↦ refuse s
      ]

  -- On a buffer that starts with the flag.
  unfoldable pub at_flag : Bytes → Round HdlcFrameBuffer HdlcStatus
  at_flag buffer =
      if ltb (length buffer) 3 then wait buffer else with_format (frame_format_at buffer) buffer

  -- `found` is the buffer from its first flag on.
  unfoldable pub skip_noise : Bytes → Bytes → Round HdlcFrameBuffer HdlcStatus
  skip_noise buffer [] =
      if not (length buffer == 0) && reports options.noise_policy
      then refuse invalid_flag
      else wait []
  skip_noise buffer (b ∷ bs) =
      if not (suc (length bs) == length buffer) && reports options.noise_policy
      then refuse invalid_flag
      else at_flag (b ∷ bs)

  unfoldable pub frame_round : Bytes → Round HdlcFrameBuffer HdlcStatus
  frame_round buffer = skip_noise buffer (from_flag buffer)
