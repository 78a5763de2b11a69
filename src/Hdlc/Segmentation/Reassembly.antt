-- ===== src/Hdlc/Segmentation/Reassembly.antt =====
-- `HdlcReassembler`: what pushing a segmented field gives, and when a field is too long.
use dlms.Prelude.{
  ℕ, ◌+◌, ◌≤◌, ◌<◌, ◌≡◌, refl, sym, ap, Bool, true, false, none, some, List, [], ◌∷◌, ◌++◌,
  append_assoc, arith, ltb, if◌then◌else◌, le→ltb, length, length-append, Bytes, Allocator, ==-self,
}
use dlms.Hdlc.Types.{
  ok, segmentation_incomplete, HdlcAddress, HdlcControl, HdlcFrame, HdlcFrameBuffer,
  HdlcCodecLimits,
}
use dlms.Hdlc.Control.{HdlcFrameKind, information, supervisory, unnumbered, frame_kind}
use dlms.Hdlc.Segmentation.{
  effective_reassembled_size, same_address, same_kind, compatible_frame_type, make_frame_buffer,
  HdlcReassembler, fresh_reassembler, Reassembled, sub_size, push_first, push_next, push_frame,
}
use dlms.Hdlc.Segmentation.Split.{Splits}

-- The result of the last of some frames that are pushed one after another.
unfoldable pub push_frames :
    Allocator → HdlcReassembler → HdlcFrameBuffer → List HdlcFrameBuffer → Reassembled
push_frames alloc r f [] = push_frame alloc r f
push_frames alloc r f (g ∷ fs) = push_frames alloc (push_frame alloc r f).state g fs

-- The reassembler behind segments that hold `p`.
abbrev pub holding : HdlcCodecLimits → HdlcFrame → Bytes → HdlcReassembler
holding limits base p = record {
  limits = limits;
  has_pending = true;
  pending = make_frame_buffer base true p;
}

pub same_address_self : (a : HdlcAddress) → same_address a a ≡ true
unfolding same_address
same_address_self a = rw (==-self a.raw_value, ==-self a.encoded_size)

same_kind_self : (k : HdlcFrameKind) → same_kind k k ≡ true
same_kind_self information = refl
same_kind_self supervisory = refl
same_kind_self unnumbered = refl

compatible_frame_type_self : (c : HdlcControl) → compatible_frame_type c c ≡ true
unfolding compatible_frame_type
compatible_frame_type_self c = same_kind_self (frame_kind c)

room :
    (maximum p c : ℕ)
    → p + c ≤ maximum
    → maximum < 0x1_0000_0000_0000_0000
    → ltb (sub_size maximum c) p ≡ false
room maximum p c h small = le→ltb _ _ (omega arith)

wrapped :
    (maximum p c : ℕ)
    → maximum < c
    → p + c ≤ 0x1_0000_0000_0000_0000
    → ltb (sub_size maximum c) p ≡ false
wrapped maximum p c h small = le→ltb _ _ (omega arith)

module _ (alloc : Allocator) (enough : (n : ℕ) → alloc n ≡ true) (limits : HdlcCodecLimits)
    (base : HdlcFrame) (small : effective_reassembled_size limits < 0x1_0000_0000_0000_0000) where
  push_frame-holding :
      (p chunk : Bytes) (more : Bool)
      → length p + length chunk ≤ effective_reassembled_size limits
      → push_frame alloc (holding limits base p) (make_frame_buffer base more chunk) ≡ (
          if more
          then record {
            status = segmentation_incomplete;
            completed = none;
            state = holding limits base (p ++ chunk);
          }
          else record {
            status = ok;
            completed = some (make_frame_buffer base false (p ++ chunk));
            state = fresh_reassembler limits;
          })
  unfolding push_frame push_next make_frame_buffer
  push_frame-holding p chunk more h = rw (
    same_address_self base.destination,
    same_address_self base.source,
    compatible_frame_type_self base.control,
    room _ _ _ h small,
    enough (length (p ++ chunk)),
  )

  push_frames-holding :
      (maximum : ℕ) (p info : Bytes) (f : HdlcFrameBuffer) (fs : List HdlcFrameBuffer)
      → Splits base maximum info (f ∷ fs)
      → length p + length info ≤ effective_reassembled_size limits
      → push_frames alloc (holding limits base p) f fs ≡ record {
        status = ok;
        completed = some (make_frame_buffer base false (p ++ info));
        state = fresh_reassembler limits;
      }
  unfolding push_frames
  push_frames-holding maximum p info f [] (e, _) h = rw e (push_frame-holding p info false h)
  push_frames-holding maximum p info f (g ∷ fs) (chunk, later, e, _, _, split, splits) h =
      rw
        (
          e,
          push_frame-holding p chunk true
              (omega (arith, length-append chunk later, ap length split)),
          split,
          sym (append_assoc p chunk later),
        )
        (push_frames-holding maximum (p ++ chunk) later g fs splits
          (omega (arith, length-append p chunk, length-append chunk later, ap length split)))

  push_frame-fresh :
      (chunk : Bytes) (more : Bool)
      → length chunk ≤ effective_reassembled_size limits
      → push_frame alloc (fresh_reassembler limits) (make_frame_buffer base more chunk) ≡ (
          if more
          then record {
            status = segmentation_incomplete;
            completed = none;
            state = holding limits base chunk;
          }
          else record {
            status = ok;
            completed = some (make_frame_buffer base false chunk);
            state = fresh_reassembler limits;
          })
  unfolding push_frame push_first make_frame_buffer
  push_frame-fresh chunk true h = rw (le→ltb _ _ h)
  push_frame-fresh chunk false h = rw (le→ltb _ _ h)

-- A fresh reassembler that is given the segments of a field no longer than its effective maximum,
-- itself below 2 ^ 64, ends with `Ok`, the field in one frame under the head of the segments and
-- without the segmentation bit, and is fresh again, provided that the allocations are granted.
pub push_frames-Splits :
    (alloc : Allocator)
    → ((n : ℕ) → alloc n ≡ true)
    → (limits : HdlcCodecLimits) → effective_reassembled_size limits < 0x1_0000_0000_0000_0000
    → (base : HdlcFrame) (maximum : ℕ) (info : Bytes)
    → (f : HdlcFrameBuffer) (fs : List HdlcFrameBuffer) → Splits base maximum info (f ∷ fs)
    → length info ≤ effective_reassembled_size limits
    → push_frames alloc (fresh_reassembler limits) f fs ≡ record {
      status = ok;
      completed = some (make_frame_buffer base false info);
      state = fresh_reassembler limits;
    }
unfolding push_frames
push_frames-Splits alloc enough limits small base maximum info f [] (e, _) h =
    rw e (push_frame-fresh alloc enough limits base small info false h)
push_frames-Splits alloc enough limits small base maximum info f (g ∷ fs)
      (chunk, later, e, _, _, split, splits) h =
    rw
      (
        e,
        push_frame-fresh alloc enough limits base small chunk true
            (omega (arith, length-append chunk later, ap length split)),
        split,
      )
      (push_frames-holding alloc enough limits base small maximum chunk later g fs splits
        (omega (arith, length-append chunk later, ap length split)))

-- The length check of `PushFrame` wraps around: where a segment longer than the effective maximum
-- follows a pending one under the same head, both together not above 2 ^ 64 bytes, and the
-- allocations are granted, `PushFrame` completes with a field that exceeds the maximum.
pub push_next-oversize :
    (alloc : Allocator)
    → ((n : ℕ) → alloc n ≡ true)
    → (limits : HdlcCodecLimits) (base : HdlcFrame) (p chunk : Bytes)
    → effective_reassembled_size limits < length chunk
    → length p + length chunk ≤ 0x1_0000_0000_0000_0000
    → (frame : HdlcFrameBuffer) × ((push_frame alloc
          (holding limits base p)
          (make_frame_buffer base false chunk)).completed
        ≡ some frame)
      × (effective_reassembled_size limits < length frame.information)
unfolding push_frame push_next make_frame_buffer
push_next-oversize alloc enough limits base p chunk long h = (
  make_frame_buffer base false (p ++ chunk),
  rw (
    same_address_self base.destination,
    same_address_self base.source,
    compatible_frame_type_self base.control,
    wrapped _ _ _ long h,
    enough (length (p ++ chunk)),
  ),
  omega (arith, length-append p chunk),
)
