-- ===== src/Wrapper/Stream/Decoder.antt =====
-- `WrapperStreamDecoder`: its state and its calls.
use dlms.Prelude.{
  ◌+◌, ◌&&◌, not, List, [], ◌∷◌, ◌++◌, ◌==◌, if◌then◌else◌, length, Bytes, Span, null, bytes,
  Allocator,
}
use dlms.Wrapper.Stream.Body.{wpdu_round}
use dlms.Wrapper.Types.{
  WrapperStatus, ok, need_more_data, invalid_argument, internal_error, WrapperFrameBuffer,
  WrapperCodecLimits,
}
use dlms.Framing.{Drained, waits, refused, stuck, drain}

pub record WrapperStreamDecoder : Type 0 where
  pub limits : WrapperCodecLimits
  pub buffer : Bytes

pub record Pushed : Type 0 where
  pub status : WrapperStatus
  pub frames : List WrapperFrameBuffer
  pub decoder : WrapperStreamDecoder

-- The constructor.
abbrev pub fresh : WrapperCodecLimits → WrapperStreamDecoder
fresh limits = record { limits = limits; buffer = [] }

abbrev pub reset : WrapperStreamDecoder → WrapperStreamDecoder
reset decoder = record decoder { buffer = [] }

-- `frames.empty() ? NeedMoreData : Ok`
abbrev pub status_of : List WrapperFrameBuffer → WrapperStatus
status_of [] = need_more_data
status_of (f ∷ fs) = ok

-- What `Push` returns at the end of its loop.
unfoldable pub pushed : WrapperStreamDecoder → Drained WrapperFrameBuffer WrapperStatus → Pushed
pushed decoder (waits kept frames) = record {
  status = status_of frames;
  frames = frames;
  decoder = record decoder { buffer = kept };
}
pushed decoder (refused s frames) = record { status = s; frames = frames; decoder = reset decoder }
pushed decoder stuck = record { status = internal_error; frames = []; decoder = decoder }

unfoldable pub push : Allocator → WrapperStreamDecoder → Span → Pushed
unfolding pushed
push alloc decoder (null n) =
    if not (n == 0)
    then record { status = invalid_argument; frames = []; decoder = decoder }
    else pushed decoder (drain (wpdu_round alloc decoder.limits) decoder.buffer [])
push alloc decoder (bytes input) =
    if not (length input == 0) && not (alloc (length decoder.buffer + length input))
    then record { status = internal_error; frames = []; decoder = reset decoder }
    else pushed decoder (drain (wpdu_round alloc decoder.limits) (decoder.buffer ++ input) [])

pub record Run : Type 0 where
  pub statuses : List WrapperStatus
  pub frames : List WrapperFrameBuffer
  pub decoder : WrapperStreamDecoder

-- One `Push` for each chunk, with all that they return.
unfoldable pub push_all : Allocator → WrapperStreamDecoder → List Bytes → Run
push_all alloc decoder [] = record { statuses = []; frames = []; decoder = decoder }
push_all alloc decoder (chunk ∷ chunks) =
    let p = push alloc decoder (bytes chunk) in
    let rest = push_all alloc p.decoder chunks in
    record {
      statuses = p.status ∷ rest.statuses;
      frames = p.frames ++ rest.frames;
      decoder = rest.decoder;
    }
