-- ===== src/Hdlc/Stream/Whole.antt =====
-- hdlc_stream_decoder.cpp: whole streams of frames and noise, cut into chunks.
use dlms.Prelude.{
  ℕ, ◌+◌, ◌≡◌, refl, sym, ap, ◌∙◌, ◌≢◌, ◌⊎◌, inl, inr, true, false, List, [], ◌∷◌, ◌++◌,
  append_assoc, append-nil, arith, length, All, concat, length-append, take-append_length,
  drop-append_length, Bytes, bytes, Allocator,
}
use dlms.Framing.{
  Round, waits, stuck, Framing, drain, feed, drain-wait, drain-emit, drain-ne-stuck, Drained-cases,
  feed-drain, emit,
}
use dlms.Hdlc.Types.{HdlcStatus, ok, need_more_data, HdlcFrameBuffer}
use dlms.Hdlc.Codec.Encode.{hdlc_flag, effective_maximum_frame_size, format_field_length_of}
use dlms.Hdlc.Codec.Wire.{view, wire, full_size, Fits, length-wire}
use dlms.Hdlc.Codec.RoundTrip.{IsFrame, decode_frame-wire, format-wire, format-fields, full_size-ge}
use dlms.Hdlc.Stream.Flag.{from_flag}
use dlms.Hdlc.Stream.Body.{
  HdlcStreamDecoderOptions, reports, with_format, at_flag, skip_noise, frame_round,
}
use dlms.Hdlc.Stream.Laws.{frame_framing, frame_format_at-append}
use dlms.Hdlc.Stream.Decoder.{Run, fresh, pushed, push, push_all, status_of}

abbrev pub IsAccepted : HdlcStatus → Type 0
IsAccepted s = (s ≡ ok) ⊎ (s ≡ need_more_data)

-- Line noise and the frame behind it.
pub record Burst : Type 0 where
  pub noise : Bytes
  pub frame : HdlcFrameBuffer

abbrev pub frames_of : List Burst → List HdlcFrameBuffer
frames_of [] = []
frames_of (b ∷ bs) = b.frame ∷ frames_of bs

unfoldable pub stream_of : List Burst → Bytes
stream_of [] = []
stream_of (b ∷ bs) = b.noise ++ (wire b.frame ++ stream_of bs)

-- Noise that the decoder drops: no flag in it, and none at all where noise is reported.
abbrev pub IsDropped : HdlcStreamDecoderOptions → Bytes → Type 0
IsDropped options noise =
    All (λ b. b ≢ hdlc_flag) noise × ((reports options.noise_policy ≡ false) ⊎ (noise ≡ []))

-- A burst that the encoder can send under the decoder's limits.
pub record IsBurst (options : HdlcStreamDecoderOptions) (b : Burst) : Type 0 where
  pub dropped : IsDropped options b.noise
  pub valid : IsFrame b.frame
  pub fits : Fits options.limits b.frame

from_flag-noise :
    (noise rest : Bytes)
    → All (λ b. b ≢ hdlc_flag) noise
    → from_flag (noise ++ (hdlc_flag ∷ rest)) ≡ hdlc_flag ∷ rest
unfolding from_flag
from_flag-noise [] rest h = refl
from_flag-noise (x ∷ noise) rest h = ground (arith, from_flag-noise noise rest, h.0)

wire-flag : (frame : HdlcFrameBuffer) → (tail : Bytes) × (wire frame ≡ hdlc_flag ∷ tail)
unfolding wire
wire-flag frame = (_, refl)

module _ (alloc : Allocator) (enough : (n : ℕ) → alloc n ≡ true)
    (options : HdlcStreamDecoderOptions) where
  at_flag-wire :
      (frame : HdlcFrameBuffer) (rest : Bytes)
      → IsFrame frame
      → Fits options.limits frame
      → at_flag alloc options (wire frame ++ rest) ≡ emit frame rest
  unfolding at_flag with_format
  at_flag-wire frame rest v fits = ground (
    arith,
    length-append (wire frame) rest,
    length-wire frame,
    full_size-ge frame v,
    frame_format_at-append alloc options (wire frame) rest,
    format-wire frame,
    format-fields frame.segmented (format_field_length_of (view frame)),
    take-append_length (full_size frame) (wire frame) rest,
    drop-append_length (full_size frame) (wire frame) rest,
    decode_frame-wire alloc frame options.limits v fits
        (enough (effective_maximum_frame_size options.limits)),
  )

  skip_noise-dropped :
      (noise buffer : Bytes) (x : ℕ)
      → (reports options.noise_policy ≡ false) ⊎ (noise ≡ [])
      → skip_noise alloc options (noise ++ (x ∷ buffer)) (x ∷ buffer)
        ≡ at_flag alloc options (x ∷ buffer)
  unfolding skip_noise
  skip_noise-dropped noise buffer x (inl quiet) = ground arith
  skip_noise-dropped noise buffer x (inr none_at_all) = rw none_at_all (ground arith)

  -- A burst at the front is taken off.
  frame_round-burst :
      (b : Burst) (rest : Bytes)
      → IsBurst options b
      → frame_round alloc options (b.noise ++ (wire b.frame ++ rest)) ≡ emit b.frame rest
  unfolding frame_round
  frame_round-burst b rest v =
      let (tail, e) = wire-flag b.frame in
      rw
        (
          e,
          from_flag-noise b.noise (tail ++ rest) v.dropped.0,
          skip_noise-dropped b.noise (tail ++ rest) hdlc_flag v.dropped.1,
        )
        (rw e at (at_flag-wire b.frame rest v.valid v.fits))

  drain-stream :
      (bs : List Burst) (acc : List HdlcFrameBuffer)
      → All (IsBurst options) bs
      → drain (frame_round alloc options) (stream_of bs) acc ≡ waits [] (acc ++ frames_of bs)
  unfolding stream_of
  drain-stream [] acc v = rw append-nil (
      drain-wait (frame_framing alloc options) [] [] acc
        ((frame_framing alloc options).round-empty))
  drain-stream (b ∷ bs) acc v =
      drain-emit (frame_framing alloc options) (b.noise ++ (wire b.frame ++ stream_of bs))
        (stream_of bs) b.frame acc (frame_round-burst b (stream_of bs) v.0)
      ∙ drain-stream bs (acc ++ b.frame ∷ []) v.1
      ∙ ap (waits []) (append_assoc acc (b.frame ∷ []) (frames_of bs))

  push-drain :
      (kept chunk : Bytes)
      → push alloc (record { options = options; buffer = kept }) (bytes chunk)
        ≡ pushed
            (record { options = options; buffer = kept })
            (drain (frame_round alloc options) (kept ++ chunk) [])
  unfolding push
  push-drain kept chunk = rw (enough (length kept + length chunk), push) refl

  -- What a run that is never refused hands out.
  Collects : List HdlcFrameBuffer → List HdlcFrameBuffer → Bytes → Run → Type 0
  Collects frames gs r run =
      (frames ++ run.frames ≡ gs) × (run.decoder.buffer ≡ r) × All IsAccepted run.statuses

  status_of-IsAccepted : (fs : List HdlcFrameBuffer) → IsAccepted (status_of fs)
  status_of-IsAccepted [] = inr refl
  status_of-IsAccepted (f ∷ fs) = inl refl

  push_all-feed :
      (chunks : List Bytes) (kept r : Bytes) (frames gs : List HdlcFrameBuffer)
      → feed (frame_round alloc options) kept frames chunks ≡ waits r gs
      → Collects frames gs r (push_all alloc (record { options = options; buffer = kept }) chunks)
  unfolding Collects push_all feed pushed
  push_all-feed [] kept r frames gs e = (ground (arith, append-nil frames), ground arith, tt)
  push_all-feed (chunk ∷ chunks) kept r frames gs e =
      elim (Drained-cases framing (drain round (kept ++ chunk) []) (drain-ne-stuck framing _ [])) [
        | inl (k, fs, q) ↦
            let ih = push_all-feed chunks k r (frames ++ fs) gs (rw (q, feed) at e) in
            let later : Run = push_all alloc (record { options = options; buffer = k }) chunks in
            rw (push-drain kept chunk, q)
              (
                sym (append_assoc frames fs later.frames) ∙ ih.0,
                ih.1,
                (status_of-IsAccepted fs, ih.2),
              )
        | inr (s, fs, q) ↦ absurd (unfold feed in ground (arith, q))
      ]
    where
      framing : Framing HdlcFrameBuffer HdlcStatus
      framing = frame_framing alloc options

      round : Bytes → Round HdlcFrameBuffer HdlcStatus
      round = frame_round alloc options

-- Cut a stream of frames with flag-free noise before each of them into chunks of any sizes: pushed
-- one after the other into a fresh decoder, they give back exactly the frames in order, every push
-- answers Ok or NeedMoreData, and no byte is left over. The frames fit the decoder's limits; where
-- the decoder reports noise there is none; all memory requests are granted.
pub push_all-stream :
    (alloc : Allocator) (options : HdlcStreamDecoderOptions) (bursts : List Burst)
    (chunks : List Bytes)
    → ((n : ℕ) → alloc n ≡ true)
    → All (IsBurst options) bursts
    → concat chunks ≡ stream_of bursts
    → ((push_all alloc (fresh options) chunks).frames ≡ frames_of bursts)
      × ((push_all alloc (fresh options) chunks).decoder.buffer ≡ [])
      × All IsAccepted (push_all alloc (fresh options) chunks).statuses
unfolding Collects
push_all-stream alloc options bursts chunks enough v e =
    push_all-feed alloc enough options chunks [] [] [] (frames_of bursts) (
      feed-drain (frame_framing alloc options) chunks [] [] [] (frames_of bursts)
        ((frame_framing alloc options).round-empty)
        (rw e (drain-stream alloc enough options bursts [] v)))

-- On every buffer the loop of `Push` leaves through one of the code's exits within as many rounds
-- as the buffer has bytes and one more, whatever the allocator does.
pub frame_loop_ends :
    (alloc : Allocator) (options : HdlcStreamDecoderOptions) (buffer : Bytes)
    (frames : List HdlcFrameBuffer)
    → drain (frame_round alloc options) buffer frames ≢ stuck
frame_loop_ends alloc options = drain-ne-stuck (frame_framing alloc options)
