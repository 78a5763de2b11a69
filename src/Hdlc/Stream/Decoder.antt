-- ===== src/Hdlc/Stream/Decoder.antt =====
-- `HdlcStreamDecoder`: its state and its calls.
use dlms.Prelude.{
  ◌+◌, not, List, [], ◌∷◌, ◌++◌, ◌==◌, if◌then◌else◌, length, Bytes, Span, null, bytes, Allocator,
}
use dlms.Hdlc.Stream.Body.{frame_round, HdlcStreamDecoderOptions}
use dlms.Hdlc.Types.{
  HdlcStatus, ok, need_more_data, invalid_argument, internal_error, HdlcFrameBuffer,
}
use dlms.Framing.{Drained, waits, refused, stuck, drain}

pub record HdlcStreamDecoder : Type 0 where
  pub options : HdlcStreamDecoderOptions
  pub buffer : Bytes

pub record Pushed : Type 0 where
  pub status : HdlcStatus
  pub frames : List HdlcFrameBuffer
  pub decoder : HdlcStreamDecoder

-- The constructor.
abbrev pub fresh : HdlcStreamDecoderOptions → HdlcStreamDecoder
fresh options = record { options = options; buffer = [] }

abbrev pub reset : HdlcStreamDecoder → HdlcStreamDecoder
reset decoder = record decoder { buffer = [] }

-- `frames.empty() ? HdlcStatus::NeedMoreData : HdlcStatus::Ok`
abbrev pub status_of : List HdlcFrameBuffer → HdlcStatus
status_of [] = need_more_data
status_of (f ∷ fs) = ok

-- What `Push` returns where it leaves its loop.
unfoldable pub pushed : HdlcStreamDecoder → Drained HdlcFrameBuffer HdlcStatus → Pushed
pushed decoder (waits kept frames) = record {
  status = status_of frames;
  frames = frames;
  decoder = record decoder { buffer = kept };
}
pushed decoder (refused s frames) = record { status = s; frames = frames; decoder = reset decoder }
pushed decoder stuck = record { status = internal_error; frames = []; decoder = decoder }

unfoldable pub push : Allocator → HdlcStreamDecoder → Span → Pushed
unfolding pushed
push alloc decoder (null n) =
    if not (n == 0)
    then record { status = invalid_argument; frames = []; decoder = decoder }
    else pushed decoder (drain (frame_round alloc decoder.options) decoder.buffer [])
push alloc decoder (bytes input) =
    if not (alloc (length decoder.buffer + length input))
    then record { status = internal_error; frames = []; decoder = reset decoder }
    else pushed decoder (drain (frame_round alloc decoder.options) (decoder.buffer ++ input) [])

pub record Run : Type 0 where
  pub statuses : List HdlcStatus
  pub frames : List HdlcFrameBuffer
  pub decoder : HdlcStreamDecoder

-- One `Push` for each chunk, with all that they return.
unfoldable pub push_all : Allocator → HdlcStreamDecoder → List Bytes → Run
push_all alloc decoder [] = record { statuses = []; frames = []; decoder = decoder }
push_all alloc decoder (chunk ∷ chunks) =
    let p = push alloc decoder (bytes chunk) in
    let rest = push_all alloc p.decoder chunks in
    record {
      statuses = p.status ∷ rest.statuses;
      frames = p.frames ++ rest.frames;
      decoder = rest.decoder;
    }
