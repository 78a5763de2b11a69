-- ===== src/Hdlc/Stream/Laws.antt =====
-- The body of the loop in `HdlcStreamDecoder::Push` is a framing.
use dlms.Prelude.{
  ℕ, ◌+◌, ◌%◌, ◌≤◌, ◌<◌, ◌≡◌, refl, sym, ◌∙◌, ◌≢◌, inl, inr, [], ◌∷◌, ◌++◌, arith, ltb, le→ltb,
  ltb-false→le, Bool-cases, length, length-append, length-drop, take-append_le, drop-append_le,
  get_or-append_lt, Bytes, Allocator,
}
use dlms.Hdlc.Types.{HdlcStatus, HdlcFrameBuffer}
use dlms.Hdlc.Codec.Decode.{frame_format_at}
use dlms.Hdlc.Stream.Flag.{
  from_flag, from_flag-append_none, from_flag-append_some, from_flag-again, from_flag_self,
}
use dlms.Framing.{wait, refuse, emit, Framing}
use dlms.Hdlc.Stream.Body.{HdlcStreamDecoderOptions, with_format, at_flag, skip_noise, frame_round}

module _ (alloc : Allocator) (options : HdlcStreamDecoderOptions) where
  pub frame_format_at-append :
      (a b : Bytes) → 3 ≤ length a → frame_format_at (a ++ b) ≡ frame_format_at a
  frame_format_at-append a b h =
      rw (get_or-append_lt a b 1 0 (omega arith), get_or-append_lt a b 2 0 (omega arith)) refl

  with_format-refuse :
      (format : ℕ) (a b : Bytes) (s : HdlcStatus)
      → with_format alloc options format a ≡ refuse s
      → with_format alloc options format (a ++ b) ≡ refuse s
  unfolding with_format
  with_format-refuse format a b s e =
      ground (arith, length-append a b, take-append_le (format % 2048 + 2) a b)

  with_format-emit :
      (format : ℕ) (a b r : Bytes) (f : HdlcFrameBuffer)
      → with_format alloc options format a ≡ emit f r
      → with_format alloc options format (a ++ b) ≡ emit f (r ++ b)
  unfolding with_format
  with_format-emit format a b r f e = ground (
    arith,
    length-append a b,
    take-append_le (format % 2048 + 2) a b,
    drop-append_le (format % 2048 + 2) a b,
  )

  at_flag-wait : (a r : Bytes) → at_flag alloc options a ≡ wait r → a ≡ r
  unfolding at_flag with_format
  at_flag-wait a r e = ground arith

  at_flag-refuse :
      (a b : Bytes) (s : HdlcStatus)
      → at_flag alloc options a ≡ refuse s
      → at_flag alloc options (a ++ b) ≡ refuse s
  unfolding at_flag
  at_flag-refuse a b s e = elim (Bool-cases (ltb (length a) 3)) [
    | inl short ↦ ground arith
    | inr enough ↦
        rw
          (
            le→ltb (length (a ++ b)) 3 (omega (arith, length-append a b, ltb-false→le _ _ enough)),
            frame_format_at-append a b (ltb-false→le _ _ enough),
          )
          (with_format-refuse (frame_format_at a) a b s (rw enough at e))
  ]

  at_flag-emit :
      (a b r : Bytes) (f : HdlcFrameBuffer)
      → at_flag alloc options a ≡ emit f r
      → at_flag alloc options (a ++ b) ≡ emit f (r ++ b)
  unfolding at_flag
  at_flag-emit a b r f e = elim (Bool-cases (ltb (length a) 3)) [
    | inl short ↦ ground arith
    | inr enough ↦
        rw
          (
            le→ltb (length (a ++ b)) 3 (omega (arith, length-append a b, ltb-false→le _ _ enough)),
            frame_format_at-append a b (ltb-false→le _ _ enough),
          )
          (with_format-emit (frame_format_at a) a b r f (rw enough at e))
  ]

  at_flag-shrinks :
      (a r : Bytes) (f : HdlcFrameBuffer) → at_flag alloc options a ≡ emit f r → length r < length a
  unfolding at_flag with_format
  at_flag-shrinks a r f e = ground (arith, length-drop (frame_format_at a % 2048 + 2) a)

  pub frame_round-empty : frame_round alloc options [] ≡ wait []
  unfolding frame_round skip_noise from_flag
  frame_round-empty = refl

  -- A round by what `std::find` finds, in the buffer and with more bytes behind it.
  round-at :
      (a m : Bytes) → from_flag a ≡ m → frame_round alloc options a ≡ skip_noise alloc options a m
  unfolding frame_round
  round-at a m e = rw e

  from_flag-le : (b r : Bytes) (x : ℕ) → from_flag b ≡ x ∷ r → length r < length b
  from_flag-le b r x q = (from_flag-again b r x q).1

  none-refuse :
      (a b m : Bytes) (s : HdlcStatus)
      → from_flag b ≡ m
      → skip_noise alloc options a [] ≡ refuse s
      → skip_noise alloc options (a ++ b) m ≡ refuse s
  unfolding skip_noise
  none-refuse a b [] s q e = ground (arith, length-append a b)
  none-refuse a b (x ∷ m) s q e = ground (arith, length-append a b, from_flag-le b m x)

  none-wait :
      (a b m r : Bytes)
      → skip_noise alloc options a [] ≡ wait r
      → (r ≡ []) × (skip_noise alloc options (a ++ b) m ≡ skip_noise alloc options b m)
  unfolding skip_noise
  none-wait a b [] r e = (ground arith, ground (arith, length-append a b))
  none-wait a b (x ∷ m) r e = (ground arith, ground (arith, length-append a b))

  some-refuse :
      (a b r : Bytes) (x : ℕ) (s : HdlcStatus)
      → skip_noise alloc options a (x ∷ r) ≡ refuse s
      → skip_noise alloc options (a ++ b) (x ∷ (r ++ b)) ≡ refuse s
  unfolding skip_noise
  some-refuse a b r x s e =
      ground (arith, length-append a b, length-append r b, at_flag-refuse (x ∷ r) b s)

  some-emit :
      (a b r k : Bytes) (x : ℕ) (f : HdlcFrameBuffer)
      → skip_noise alloc options a (x ∷ r) ≡ emit f k
      → skip_noise alloc options (a ++ b) (x ∷ (r ++ b)) ≡ emit f (k ++ b)
  unfolding skip_noise
  some-emit a b r k x f e =
      ground (arith, length-append a b, length-append r b, at_flag-emit (x ∷ r) b k f)

  some-wait :
      (a b r k : Bytes) (x : ℕ)
      → skip_noise alloc options a (x ∷ r) ≡ wait k
      → (k ≡ x ∷ r)
        × (skip_noise alloc options (a ++ b) (x ∷ (r ++ b))
            ≡ skip_noise alloc options (x ∷ (r ++ b)) (x ∷ (r ++ b)))
  unfolding skip_noise
  some-wait a b r k x e =
      (ground (arith, at_flag-wait (x ∷ r) k), ground (arith, length-append a b, length-append r b))

  some-shrinks :
      (a r k : Bytes) (x : ℕ) (f : HdlcFrameBuffer)
      → skip_noise alloc options a (x ∷ r) ≡ emit f k
      → length k < length (x ∷ r)
  unfolding skip_noise
  some-shrinks a r k x f e = ground (arith, at_flag-shrinks (x ∷ r) k f)

  none-emit : (a k : Bytes) (f : HdlcFrameBuffer) → skip_noise alloc options a [] ≢ emit f k
  unfolding skip_noise
  none-emit a k f e = ground arith

  pub frame_round-refuse :
      (a b : Bytes) (s : HdlcStatus)
      → frame_round alloc options a ≡ refuse s
      → frame_round alloc options (a ++ b) ≡ refuse s
  frame_round-refuse a b s = by_found (from_flag a) refl
    where
      by_found :
          (m : Bytes)
          → from_flag a ≡ m
          → frame_round alloc options a ≡ refuse s
          → frame_round alloc options (a ++ b) ≡ refuse s
      by_found [] q e =
          round-at (a ++ b) (from_flag b) (from_flag-append_none a b q)
          ∙ none-refuse a b (from_flag b) s refl (sym (round-at a [] q) ∙ e)
      by_found (x ∷ r) q e =
          round-at (a ++ b) (x ∷ (r ++ b)) (from_flag-append_some a b r x q)
          ∙ some-refuse a b r x s (sym (round-at a (x ∷ r) q) ∙ e)

  pub frame_round-emit :
      (a b k : Bytes) (f : HdlcFrameBuffer)
      → frame_round alloc options a ≡ emit f k
      → frame_round alloc options (a ++ b) ≡ emit f (k ++ b)
  frame_round-emit a b k f = by_found (from_flag a) refl
    where
      by_found :
          (m : Bytes)
          → from_flag a ≡ m
          → frame_round alloc options a ≡ emit f k
          → frame_round alloc options (a ++ b) ≡ emit f (k ++ b)
      by_found [] q e = absurd (none-emit a k f (sym (round-at a [] q) ∙ e))
      by_found (x ∷ r) q e =
          round-at (a ++ b) (x ∷ (r ++ b)) (from_flag-append_some a b r x q)
          ∙ some-emit a b r k x f (sym (round-at a (x ∷ r) q) ∙ e)

  pub frame_round-wait :
      (a b k : Bytes)
      → frame_round alloc options a ≡ wait k
      → frame_round alloc options (a ++ b) ≡ frame_round alloc options (k ++ b)
  frame_round-wait a b k = by_found (from_flag a) refl
    where
      by_found :
          (m : Bytes)
          → from_flag a ≡ m
          → frame_round alloc options a ≡ wait k
          → frame_round alloc options (a ++ b) ≡ frame_round alloc options (k ++ b)
      by_found [] q e =
          let (kept, same) = none-wait a b (from_flag b) k (sym (round-at a [] q) ∙ e) in
          round-at (a ++ b) (from_flag b) (from_flag-append_none a b q)
          ∙ same
          ∙ sym (round-at b (from_flag b) refl)
          ∙ rw kept refl
      by_found (x ∷ r) q e =
          let (kept, same) = some-wait a b r k x (sym (round-at a (x ∷ r) q) ∙ e) in
          let again : from_flag (x ∷ (r ++ b)) ≡ x ∷ (r ++ b) =
            rw ((from_flag-again a r x q).0) (from_flag_self (r ++ b)) in
          round-at (a ++ b) (x ∷ (r ++ b)) (from_flag-append_some a b r x q)
          ∙ same
          ∙ sym (round-at (x ∷ (r ++ b)) (x ∷ (r ++ b)) again)
          ∙ rw kept refl

  pub frame_round-shrinks :
      (a k : Bytes) (f : HdlcFrameBuffer)
      → frame_round alloc options a ≡ emit f k
      → length k < length a
  frame_round-shrinks a k f = by_found (from_flag a) refl
    where
      by_found :
          (m : Bytes)
          → from_flag a ≡ m
          → frame_round alloc options a ≡ emit f k
          → length k < length a
      by_found [] q e = absurd (none-emit a k f (sym (round-at a [] q) ∙ e))
      by_found (x ∷ r) q e =
          omega
            (arith, some-shrinks a r k x f (sym (round-at a (x ∷ r) q) ∙ e), from_flag-le a r x q)

  abbrev pub frame_framing : Framing HdlcFrameBuffer HdlcStatus
  frame_framing = record {
    round = frame_round alloc options;
    round-empty = frame_round-empty;
    round-wait = frame_round-wait;
    round-refuse = frame_round-refuse;
    round-emit = frame_round-emit;
    round-shrinks = frame_round-shrinks;
  }
