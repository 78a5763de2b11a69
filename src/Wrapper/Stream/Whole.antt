-- ===== src/Wrapper/Stream/Whole.antt =====
-- wrapper_stream_decoder.cpp: whole streams of WPDUs, cut into chunks.
use dlms.Prelude.{
  ℕ, ◌+◌, ◌≡◌, refl, sym, ap, ◌∙◌, ◌≢◌, ◌⊎◌, inl, inr, true, List, [], ◌∷◌, ◌++◌, append_assoc,
  append-nil, arith, ◌==◌, Bool-cases, length, All, concat, length-append, take-append_length,
  drop-append_length, Bytes, bytes, Allocator,
}
use dlms.Framing.{
  waits, stuck, Framing, drain, feed, drain-wait, drain-emit, feed-drain, emit, Round,
  Drained-cases, drain-ne-stuck,
}
use dlms.Wrapper.Types.{WrapperStatus, ok, need_more_data, WrapperFrameBuffer, WrapperCodecLimits}
use dlms.Wrapper.RoundTrip.{
  wire, IsEncodable, length-wire, decode_wrapper_header-wire, decode_wpdu-wire,
}
use dlms.Wrapper.Stream.Body.{with_header, wpdu_round, wpdu_framing}
use dlms.Wrapper.Stream.Decoder.{Run, fresh, pushed, push, push_all, status_of}

abbrev pub IsAccepted : WrapperStatus → Type 0
IsAccepted s = (s ≡ ok) ⊎ (s ≡ need_more_data)

unfoldable pub wires : List WrapperFrameBuffer → Bytes
wires [] = []
wires (f ∷ fs) = wire f ++ wires fs

module _ (alloc : Allocator) (enough : (n : ℕ) → alloc n ≡ true) (limits : WrapperCodecLimits) where
  -- A whole WPDU at the front is taken off.
  wpdu_round-wire :
      (frame : WrapperFrameBuffer) (rest : Bytes)
      → IsEncodable limits frame
      → wpdu_round alloc limits (wire frame ++ rest) ≡ emit frame rest
  unfolding wpdu_round with_header
  wpdu_round-wire frame rest v = ground (
    arith,
    length-append (wire frame) rest,
    length-wire frame,
    decode_wrapper_header-wire limits frame rest v,
    take-append_length (8 + length frame.payload) (wire frame) rest,
    drop-append_length (8 + length frame.payload) (wire frame) rest,
    decode_wpdu-wire alloc frame limits v (enough (length frame.payload)),
  )

  drain-wires :
      (fs acc : List WrapperFrameBuffer)
      → All (IsEncodable limits) fs
      → drain (wpdu_round alloc limits) (wires fs) acc ≡ waits [] (acc ++ fs)
  unfolding wires
  drain-wires [] acc v =
      rw append-nil
        (drain-wait (wpdu_framing alloc limits) [] [] acc ((wpdu_framing alloc limits).round-empty))
  drain-wires (f ∷ fs) acc v =
      drain-emit (wpdu_framing alloc limits) (wire f ++ wires fs) (wires fs) f acc
        (wpdu_round-wire f (wires fs) v.0)
      ∙ drain-wires fs (acc ++ f ∷ []) v.1
      ∙ ap (waits []) (append_assoc acc (f ∷ []) fs)

  push-drain :
      (kept chunk : Bytes)
      → push alloc (record { limits = limits; buffer = kept }) (bytes chunk)
        ≡ pushed
            (record { limits = limits; buffer = kept })
            (drain (wpdu_round alloc limits) (kept ++ chunk) [])
  unfolding push
  push-drain kept chunk = elim (Bool-cases (length chunk == 0)) [
    | inl e ↦ rw (e, push) refl
    | inr e ↦ rw (enough (length kept + length chunk), e, push) refl
  ]

  -- What a run that is never refused hands out.
  Collects : List WrapperFrameBuffer → List WrapperFrameBuffer → Bytes → Run → Type 0
  Collects frames gs r run =
      (frames ++ run.frames ≡ gs) × (run.decoder.buffer ≡ r) × All IsAccepted run.statuses

  status_of-IsAccepted : (fs : List WrapperFrameBuffer) → IsAccepted (status_of fs)
  status_of-IsAccepted [] = inr refl
  status_of-IsAccepted (f ∷ fs) = inl refl

  push_all-feed :
      (chunks : List Bytes) (kept r : Bytes) (frames gs : List WrapperFrameBuffer)
      → feed (wpdu_round alloc limits) kept frames chunks ≡ waits r gs
      → Collects frames gs r (push_all alloc (record { limits = limits; buffer = kept }) chunks)
  unfolding Collects push_all feed pushed
  push_all-feed [] kept r frames gs e = (ground (arith, append-nil frames), ground arith, tt)
  push_all-feed (chunk ∷ chunks) kept r frames gs e =
      elim (Drained-cases framing (drain round (kept ++ chunk) []) (drain-ne-stuck framing _ [])) [
        | inl (k, fs, q) ↦
            let ih = push_all-feed chunks k r (frames ++ fs) gs (rw (q, feed) at e) in
            let later : Run = push_all alloc (record { limits = limits; buffer = k }) chunks in
            rw (push-drain kept chunk, q)
              (
                sym (append_assoc frames fs later.frames) ∙ ih.0,
                ih.1,
                (status_of-IsAccepted fs, ih.2),
              )
        | inr (s, fs, q) ↦ absurd (unfold feed in ground (arith, q))
      ]
    where
      framing : Framing WrapperFrameBuffer WrapperStatus
      framing = wpdu_framing alloc limits

      round : Bytes → Round WrapperFrameBuffer WrapperStatus
      round = wpdu_round alloc limits

-- Cut the WPDUs of any encodable frames into chunks of any sizes: pushed one after the other into a
-- fresh decoder, they give back exactly these frames in order, every push answers Ok or
-- NeedMoreData, and no byte is left over. All memory requests are granted.
pub push_all-wires :
    (alloc : Allocator) (limits : WrapperCodecLimits) (frames : List WrapperFrameBuffer)
    (chunks : List Bytes)
    → ((n : ℕ) → alloc n ≡ true)
    → All (IsEncodable limits) frames
    → concat chunks ≡ wires frames
    → ((push_all alloc (fresh limits) chunks).frames ≡ frames)
      × ((push_all alloc (fresh limits) chunks).decoder.buffer ≡ [])
      × All IsAccepted (push_all alloc (fresh limits) chunks).statuses
unfolding Collects
push_all-wires alloc limits frames chunks enough v e =
    push_all-feed alloc enough limits chunks [] [] [] frames (
      feed-drain (wpdu_framing alloc limits) chunks [] [] [] frames
        ((wpdu_framing alloc limits).round-empty)
        (rw e (drain-wires alloc enough limits frames [] v)))

-- On every buffer the loop of `Push` leaves through one of the code's exits within as many rounds
-- as the buffer has bytes and one more, whatever the allocator does.
pub wpdu_loop_ends :
    (alloc : Allocator) (limits : WrapperCodecLimits) (buffer : Bytes)
    (frames : List WrapperFrameBuffer)
    → drain (wpdu_round alloc limits) buffer frames ≢ stuck
wpdu_loop_ends alloc limits = drain-ne-stuck (wpdu_framing alloc limits)
