-- ===== src/Hdlc/Segmentation.antt =====
-- lib/dlms-hdlc/src/hdlc/hdlc_segmentation.cpp: splitting and reassembling Information fields.
pub mod Split
pub mod Reassembly
use dlms.Prelude.{
  ℕ, zero, suc, ◌+◌, ◌-◌, ◌*◌, ◌/◌, ◌%◌, ◌^◌, ◌≤◌, ◌<◌, min, ◌≡◌, refl, sym, ap, ◌∙◌, ◌≢◌, ◌↔◌, ◌⊎◌,
  inl, inr, Bool, true, false, ◌&&◌, ◌||◌, not, Option, none, some, List, [], ◌∷◌, ◌++◌, map,
  append_assoc, append-nil, arith, ltb, leb, ◌==◌, if◌then◌else◌, ltb→lt, lt→ltb, le→ltb,
  ltb-false→le, ==→eq, Bool-cases, Option-cases, length, get_or, take, drop, replicate, All, concat,
  length-append, length-take, length-drop, length-replicate, take-append-drop, take-append_le,
  drop-append_le, get_or-append_lt, take-append_length, drop-append_length, drop-drop,
  take-append_ge, get_or-append_length, All-append, eq-nil, take-length, Result, done, fail, ◌>>=◌,
  >>=-eq-done, Result-cases, IsDone, Bytes, IsByte, is_null_data, contents, Span, null, bytes,
  Allocator, high_byte, low_byte, join_bytes, overwrite, size, Written, tests,
}
use dlms.Hdlc.Types.{
  HdlcStatus, ok, invalid_argument, segmentation_error, segmentation_incomplete,
  segmentation_overflow, internal_error, HdlcAddress, HdlcControl, HdlcFrame, HdlcFrameBuffer,
  HdlcCodecLimits,
}
use dlms.Hdlc.Address.{no_address}
use dlms.Hdlc.Control.{HdlcFrameKind, information, supervisory, unnumbered, frame_kind}

unfoldable pub effective_segment_size : HdlcCodecLimits → ℕ
effective_segment_size limits =
    if limits.maximum_information_field_size == 0
    then 2030
    else limits.maximum_information_field_size

unfoldable pub effective_reassembled_size : HdlcCodecLimits → ℕ
effective_reassembled_size limits =
    if limits.maximum_reassembled_information_size == 0
    then 65535
    else limits.maximum_reassembled_information_size

unfoldable pub same_address : HdlcAddress → HdlcAddress → Bool
same_address left right =
    left.raw_value == right.raw_value && left.encoded_size == right.encoded_size

-- `==` of two frame kinds.
abbrev pub same_kind : HdlcFrameKind → HdlcFrameKind → Bool
same_kind information information = true
same_kind supervisory supervisory = true
same_kind unnumbered unnumbered = true
same_kind _ _ = false

unfoldable pub compatible_frame_type : HdlcControl → HdlcControl → Bool
compatible_frame_type left right = same_kind (frame_kind left) (frame_kind right)

unfoldable pub make_frame_buffer : HdlcFrame → Bool → Bytes → HdlcFrameBuffer
make_frame_buffer base segmented info = record {
  segmented = segmented;
  destination = base.destination;
  source = base.source;
  control = base.control;
  information = info;
}

-- The frame in front of the segments that are still to come.
abbrev pub with_segment :
    HdlcFrameBuffer
    → Option (Result HdlcStatus (List HdlcFrameBuffer))
    → Option (Result HdlcStatus (List HdlcFrameBuffer))
with_segment frame none = none
with_segment frame (some (fail s)) = some (fail s)
with_segment frame (some (done frames)) = some (done (frame ∷ frames))

-- The loop of `SegmentInformation` on the bytes from `offset` on. `none` is no result of the code:
-- the fuel ran out.
unfoldable pub segment_loop :
    Allocator → ℕ → HdlcFrame → ℕ → Bytes → Option (Result HdlcStatus (List HdlcFrameBuffer))
segment_loop alloc zero base maximum remaining = none
segment_loop alloc (suc fuel) base maximum [] = some (done [])
segment_loop alloc (suc fuel) base maximum (b ∷ bs) =
    let chunk_size = min maximum (length (b ∷ bs)) in
    let has_more = ltb chunk_size (length (b ∷ bs)) in
    let frame = make_frame_buffer base has_more (take chunk_size (b ∷ bs)) in
    let rest = segment_loop alloc fuel base maximum (drop chunk_size (b ∷ bs)) in
    if not (alloc chunk_size) then some (fail internal_error) else with_segment frame rest

-- `fail s`: the status is `s` and `outputFrames` is empty. The growth of the frame list itself is
-- taken to succeed. Each round takes a byte at least.
unfoldable pub segment_information :
    Allocator
    → HdlcCodecLimits
    → HdlcFrame
    → Span
    → Option (Result HdlcStatus (List HdlcFrameBuffer))
unfolding effective_segment_size
segment_information alloc limits base info =
    let maximum = effective_segment_size limits in
    if is_null_data info
    then some (fail invalid_argument)
    else if maximum == 0
    then some (fail invalid_argument)
    else if leb (size info) maximum
    then (if size info == 0 || alloc (size info)
        then some (done (make_frame_buffer base false (contents info) ∷ []))
        else some (fail internal_error))
    else segment_loop alloc (suc (size info)) base maximum (contents info)

pub record HdlcReassembler : Type 0 where
  pub limits : HdlcCodecLimits
  pub has_pending : Bool
  pub pending : HdlcFrameBuffer

-- `HdlcFrameBuffer()`.
abbrev pub empty_frame : HdlcFrameBuffer
empty_frame = record {
  segmented = false;
  destination = no_address;
  source = no_address;
  control = record { control_value = 0 };
  information = [];
}

abbrev pub fresh_reassembler : HdlcCodecLimits → HdlcReassembler
fresh_reassembler limits = record { limits = limits; has_pending = false; pending = empty_frame }

abbrev pub reset : HdlcReassembler → HdlcReassembler
reset r = record r { has_pending = false; pending = empty_frame }

-- `completed` is `completedFrame` where `hasCompletedFrame` is set.
pub record Reassembled : Type 0 where
  pub status : HdlcStatus
  pub completed : Option HdlcFrameBuffer
  pub state : HdlcReassembler

-- `left - right` of two `std::size_t`.
abbrev pub sub_size : ℕ → ℕ → ℕ
sub_size left right = (left + 0x1_0000_0000_0000_0000 - right) % 0x1_0000_0000_0000_0000

-- `PushFrame` with nothing pending.
unfoldable pub push_first : HdlcReassembler → HdlcFrameBuffer → Reassembled
unfolding effective_reassembled_size
push_first r frame =
    if ltb (effective_reassembled_size r.limits) (length frame.information)
    then record { status = segmentation_overflow; completed = none; state = r }
    else if not frame.segmented
    then record { status = ok; completed = some frame; state = r }
    else record {
      status = segmentation_incomplete;
      completed = none;
      state = record r { has_pending = true; pending = frame };
    }

-- `PushFrame` behind a pending segment.
unfoldable pub push_next : Allocator → HdlcReassembler → HdlcFrameBuffer → Reassembled
unfolding effective_reassembled_size same_address compatible_frame_type
push_next alloc r frame =
    let maximum = effective_reassembled_size r.limits in
    let pending = r.pending in
    let joined = pending.information ++ frame.information in
    if not (same_address pending.destination frame.destination)
      || (not (same_address pending.source frame.source)
          || not (compatible_frame_type pending.control frame.control))
    then record { status = segmentation_error; completed = none; state = reset r }
    else if ltb (sub_size maximum (length frame.information)) (length pending.information)
    then record { status = segmentation_overflow; completed = none; state = reset r }
    else if not (alloc (length joined))
    then record { status = internal_error; completed = none; state = reset r }
    else if frame.segmented
    then record {
      status = segmentation_incomplete;
      completed = none;
      state = record r { pending = record pending { information = joined } };
    }
    else record {
      status = ok;
      completed = some (record pending { segmented = false; information = joined });
      state = reset r;
    }

unfoldable pub push_frame : Allocator → HdlcReassembler → HdlcFrameBuffer → Reassembled
push_frame alloc r frame = if not r.has_pending then push_first r frame else push_next alloc r frame
