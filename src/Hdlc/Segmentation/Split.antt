-- ===== src/Hdlc/Segmentation/Split.antt =====
-- `HdlcSegmenter`: what the segments are.
use dlms.Prelude.{
  ℕ, zero, suc, ◌≤◌, ◌<◌, min, ◌≡◌, refl, sym, ap, ◌∙◌, inl, inr, Bool, true, false, ◌||◌, some,
  List, [], ◌∷◌, ◌++◌, arith, ltb, leb, ◌==◌, if◌then◌else◌, ltb→lt, lt→ltb, le→ltb, ltb-false→le,
  Bool-cases, length, take, drop, length-take, length-drop, take-append-drop, eq-nil, take-length,
  done, fail, Bytes, bytes, Allocator,
}
use native.Mathlib.Nat.{min-eq_left, min-eq_right}
use dlms.Hdlc.Types.{HdlcFrame, HdlcFrameBuffer, HdlcCodecLimits}
use dlms.Hdlc.Segmentation.{
  effective_segment_size, make_frame_buffer, with_segment, segment_loop, segment_information,
  invalid_argument, internal_error,
}

-- `frames` carry `info` in order: each under the head of `base` with at most `maximum` bytes, and
-- the segmentation bit on all but the last.
abbrev pub Splits : HdlcFrame → ℕ → Bytes → List HdlcFrameBuffer → Type 0
Splits base maximum info [] = ⊥
Splits base maximum info (f ∷ []) =
    (f ≡ make_frame_buffer base false info) × (length info ≤ maximum)
Splits base maximum info (f ∷ g ∷ fs) =
    (chunk : Bytes) × (later : Bytes) × (f ≡ make_frame_buffer base true chunk)
    × (1 ≤ length chunk)
    × (length chunk ≤ maximum)
    × (info ≡ chunk ++ later)
    × Splits base maximum later (g ∷ fs)

module _ (alloc : Allocator) (enough : (n : ℕ) → alloc n ≡ true) (base : HdlcFrame) (maximum : ℕ)
    (pos : 1 ≤ maximum) where
  segment_loop-chunk :
      (fuel : ℕ) (b : ℕ) (bs : Bytes) (chunk_size : ℕ) (more : Bool)
      → min maximum (length (b ∷ bs)) ≡ chunk_size
      → ltb chunk_size (length (b ∷ bs)) ≡ more
      → segment_loop alloc (suc fuel) base maximum (b ∷ bs)
        ≡ with_segment
            (make_frame_buffer base more (take chunk_size (b ∷ bs)))
            (segment_loop alloc fuel base maximum (drop chunk_size (b ∷ bs)))
  unfolding segment_loop
  segment_loop-chunk fuel b bs chunk_size more p q = rw (segment_loop, p, q, enough chunk_size)

  more_segments :
      (fuel : ℕ) (b : ℕ) (bs : Bytes)
      → maximum < length (b ∷ bs)
      → (frames : List HdlcFrameBuffer) × (segment_loop alloc fuel base maximum
            (drop maximum (b ∷ bs))
          ≡ some (done frames))
        × Splits base maximum (drop maximum (b ∷ bs)) frames
      → (frames : List HdlcFrameBuffer) × (segment_loop alloc (suc fuel) base maximum (b ∷ bs)
          ≡ some (done frames))
        × Splits base maximum (b ∷ bs) frames
  more_segments fuel b bs more ([], r, splits) = absurd splits
  more_segments fuel b bs more (f ∷ fs, r, splits) = (
    make_frame_buffer base true (take maximum (b ∷ bs)) ∷ f ∷ fs,
    segment_loop-chunk fuel b bs maximum true (min-eq_left (omega arith)) (lt→ltb _ _ more)
        ∙ ap (with_segment _) r,
    (
      take maximum (b ∷ bs),
      drop maximum (b ∷ bs),
      refl,
      omega (arith, length-take maximum (b ∷ bs)),
      omega (arith, length-take maximum (b ∷ bs)),
      sym (take-append-drop maximum (b ∷ bs)),
      splits,
    ),
  )

  last_segment :
      (fuel : ℕ) (b : ℕ) (bs : Bytes)
      → length (b ∷ bs) ≤ maximum
      → length (b ∷ bs) < suc fuel
      → (frames : List HdlcFrameBuffer) × (segment_loop alloc (suc fuel) base maximum (b ∷ bs)
          ≡ some (done frames))
        × Splits base maximum (b ∷ bs) frames
  unfolding segment_loop
  last_segment zero b bs h q = absurd (omega arith)
  last_segment (suc fuel) b bs h q = (
    make_frame_buffer base false (b ∷ bs) ∷ [],
    segment_loop-chunk (suc fuel) b bs (length (b ∷ bs)) false (min-eq_right h)
          (le→ltb _ _ (omega arith))
        ∙ rw (
          take-length (length (b ∷ bs)) (b ∷ bs) refl,
          eq-nil (drop (length (b ∷ bs)) (b ∷ bs))
              (omega (arith, length-drop (length (b ∷ bs)) (b ∷ bs))),
        ),
    (refl, h),
  )

  segment_loop-Splits :
      (fuel : ℕ) (info : Bytes)
      → 1 ≤ length info
      → length info < fuel
      → (frames : List HdlcFrameBuffer) × (segment_loop alloc fuel base maximum info
          ≡ some (done frames))
        × Splits base maximum info frames
  segment_loop-Splits zero info h q = absurd (omega arith)
  segment_loop-Splits (suc fuel) [] h q = absurd (omega arith)
  segment_loop-Splits (suc fuel) (b ∷ bs) h q = elim (Bool-cases (ltb maximum (length (b ∷ bs)))) [
    | inl more ↦ more_segments fuel b bs (ltb→lt _ _ more) (
        segment_loop-Splits fuel (drop maximum (b ∷ bs))
          (omega (arith, length-drop maximum (b ∷ bs), ltb→lt _ _ more))
          (omega (arith, length-drop maximum (b ∷ bs), ltb→lt _ _ more)))
    | inr last ↦ last_segment fuel b bs (ltb-false→le _ _ last) q
  ]

positive-==0 : (n : ℕ) → 1 ≤ n → (n == 0) ≡ false
positive-==0 n h = ground arith

or-true : (b : Bool) → (b || true) ≡ true
or-true true = refl
or-true false = refl

leb→le : (a b : ℕ) → leb a b ≡ true → a ≤ b
leb→le a b h = ground arith

leb-false→lt : (a b : ℕ) → leb a b ≡ false → b < a
leb-false→lt a b h = ground arith

effective_segment_size-positive : (limits : HdlcCodecLimits) → 1 ≤ effective_segment_size limits
unfolding effective_segment_size
effective_segment_size-positive limits = ground arith

-- With the allocations granted, `SegmentInformation` returns frames for every field, and they
-- carry the field as `Splits` says: in order, all but the last with the segmentation bit, each
-- under the head of the base frame and with no more bytes than the configured maximum of an
-- Information field, or than 2030 where none is configured. These 2030 do not depend on the maximum
-- size of a frame and on the addresses, from which the interface and the documents derive them.
pub segment_information-Splits :
    (alloc : Allocator)
    → ((n : ℕ) → alloc n ≡ true)
    → (limits : HdlcCodecLimits) (base : HdlcFrame) (info : Bytes)
    → (frames : List HdlcFrameBuffer) × (segment_information alloc limits base (bytes info)
        ≡ some (done frames))
      × Splits base
          (if limits.maximum_information_field_size == 0
            then 2030
            else limits.maximum_information_field_size)
          info
          frames
unfolding segment_information effective_segment_size
segment_information-Splits alloc enough limits base info =
    segment_whole (effective_segment_size limits) (effective_segment_size-positive limits)
  where
    segment_whole :
        (maximum : ℕ)
        → 1 ≤ maximum
        → (frames : List HdlcFrameBuffer) × ((if maximum == 0
              then some (fail invalid_argument)
              else if leb (length info) maximum
              then (if length info == 0 || alloc (length info)
                  then some (done (make_frame_buffer base false info ∷ []))
                  else some (fail internal_error))
              else segment_loop alloc (suc (length info)) base maximum info)
            ≡ some (done frames))
          × Splits base maximum info frames
    segment_whole maximum h = elim (Bool-cases (leb (length info) maximum)) [
      | inl fits ↦ (
        make_frame_buffer base false info ∷ [],
        rw (positive-==0 _ h, fits, enough (length info), or-true (length info == 0)),
        (refl, leb→le _ _ fits),
      )
      | inr long ↦
          rw (positive-==0 _ h, long)
            (segment_loop-Splits alloc enough base maximum h (suc (length info)) info
              (omega (arith, leb-false→lt _ _ long)) (omega arith))
    ]
