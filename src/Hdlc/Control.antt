-- ===== src/Hdlc/Control.antt =====
-- lib/dlms-hdlc/src/hdlc/hdlc_control.cpp: the HDLC control byte.
use dlms.Prelude.{
  ℕ, ◌/◌, ◌%◌, ◌≡◌, ◌⊎◌, Bool, ◌||◌, not, arith, ◌==◌, if◌then◌else◌, Result, done, fail, IsDone,
}
use Prim.Native.Nat.{bit_and}
use dlms.Hdlc.Types.{HdlcStatus, invalid_frame_type, invalid_control_field, HdlcControl}

pub data HdlcFrameKind : Type 0 where
  information supervisory unnumbered : HdlcFrameKind

pub data HdlcSupervisoryKind : Type 0 where
  receive_ready receive_not_ready reject selective_reject : HdlcSupervisoryKind

pub data HdlcUnnumberedKind : Type 0 where
  snrm ua disc dm frmr ui : HdlcUnnumberedKind

abbrev without_poll : ℕ → ℕ
without_poll value = bit_and value 0xef

unfoldable pub is_supported_unnumbered : ℕ → Bool
is_supported_unnumbered value =
    let masked = without_poll value in
    masked == 0x83
    || (masked == 0x63
        || (masked == 0x43 || (masked == 0x0f || (masked == 0x87 || masked == 0x03))))

unfoldable pub decode_control : ℕ → Result HdlcStatus HdlcControl
unfolding is_supported_unnumbered
decode_control value =
    if value % 2 == 0
    then done (record { control_value = value })
    else if value % 4 == 1
    then done (record { control_value = value })
    else if is_supported_unnumbered value
    then done (record { control_value = value })
    else fail invalid_control_field

-- `Encode` never fails.
unfoldable pub encode_control : HdlcControl → Result HdlcStatus ℕ
encode_control control = done control.control_value

unfoldable pub frame_kind : HdlcControl → HdlcFrameKind
frame_kind control =
    if control.control_value % 2 == 0
    then information
    else if control.control_value % 4 == 1
    then supervisory
    else unnumbered

unfoldable pub poll_final : HdlcControl → Bool
poll_final control = not (control.control_value / 16 % 2 == 0)

-- The `switch` on the two kind bits.
unfoldable pub supervisory_of : ℕ → Result HdlcStatus HdlcSupervisoryKind
supervisory_of bits =
    if bits == 0
    then done receive_ready
    else if bits == 1
    then done receive_not_ready
    else if bits == 2
    then done reject
    else if bits == 3
    then done selective_reject
    else fail invalid_control_field

unfoldable pub supervisory_kind : HdlcControl → Result HdlcStatus HdlcSupervisoryKind
unfolding frame_kind supervisory_of
supervisory_kind control = elim (frame_kind control) [
  | supervisory ↦ supervisory_of (control.control_value / 4 % 4)
  | other ↦ fail invalid_frame_type
]

-- The `switch` on the masked control byte.
unfoldable pub unnumbered_of : ℕ → Result HdlcStatus HdlcUnnumberedKind
unnumbered_of masked =
    if masked == 0x83
    then done snrm
    else if masked == 0x63
    then done ua
    else if masked == 0x43
    then done disc
    else if masked == 0x0f
    then done dm
    else if masked == 0x87
    then done frmr
    else if masked == 0x03
    then done ui
    else fail invalid_control_field

unfoldable pub unnumbered_kind : HdlcControl → Result HdlcStatus HdlcUnnumberedKind
unfolding frame_kind unnumbered_of
unnumbered_kind control = elim (frame_kind control) [
  | unnumbered ↦ unnumbered_of (without_poll control.control_value)
  | other ↦ fail invalid_frame_type
]

unfoldable pub send_sequence : HdlcControl → ℕ
unfolding frame_kind
send_sequence control = elim (frame_kind control) [
  | information ↦ control.control_value / 2 % 8
  | other ↦ 0
]

unfoldable pub receive_sequence : HdlcControl → ℕ
unfolding frame_kind
receive_sequence control = elim (frame_kind control) [
  | unnumbered ↦ 0
  | other ↦ control.control_value / 32 % 8
]

-- A control byte that `Decode` accepts has a kind that can be read: it is an I-frame, or
-- `SupervisoryKind` succeeds, or `UnnumberedKind` succeeds, and neither of the two succeeds for
-- another kind of frame. Decoding and encoding give the byte back.
pub decode_control-kinds :
    (value : ℕ) (control : HdlcControl)
    → decode_control value ≡ done control
    → (encode_control control ≡ done value)
      × ((frame_kind control ≡ information)
            × (supervisory_kind control ≡ fail invalid_frame_type)
            × (unnumbered_kind control ≡ fail invalid_frame_type)
          ⊎ ((frame_kind control ≡ supervisory)
                × IsDone (supervisory_kind control)
                × (unnumbered_kind control ≡ fail invalid_frame_type)
              ⊎ (frame_kind control ≡ unnumbered)
                × (supervisory_kind control ≡ fail invalid_frame_type)
                × IsDone (unnumbered_kind control)))
unfolding decode_control encode_control frame_kind supervisory_kind unnumbered_kind
decode_control-kinds value control e = ground arith
