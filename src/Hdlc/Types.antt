-- ===== src/Hdlc/Types.antt =====
-- lib/dlms-hdlc/include/dlms/hdlc: hdlc_error.hpp, hdlc_types.hpp, hdlc_frame.hpp, and the private
-- state of the classes in hdlc_address.hpp and hdlc_control.hpp.
use dlms.Prelude.{ℕ, Bool, Bytes, Span}

pub data HdlcStatus : Type 0 where
  ok need_more_data output_buffer_too_small : HdlcStatus
  invalid_argument invalid_flag invalid_frame_format invalid_frame_type : HdlcStatus
  invalid_frame_length invalid_address invalid_control_field : HdlcStatus
  invalid_header_checksum invalid_frame_checksum : HdlcStatus
  frame_too_large information_field_too_large : HdlcStatus
  segmentation_error segmentation_incomplete segmentation_overflow : HdlcStatus
  unsupported_frame unsupported_address unsupported_feature internal_error : HdlcStatus

pub record HdlcAddress : Type 0 where
  pub raw_value : ℕ
  pub encoded_size : ℕ

pub record HdlcControl : Type 0 where
  pub control_value : ℕ

-- A view: `information` is the pair of `informationData` and `informationSize`.
pub record HdlcFrame : Type 0 where
  pub segmented : Bool
  pub destination : HdlcAddress
  pub source : HdlcAddress
  pub control : HdlcControl
  pub information : Span

pub record HdlcFrameBuffer : Type 0 where
  pub segmented : Bool
  pub destination : HdlcAddress
  pub source : HdlcAddress
  pub control : HdlcControl
  pub information : Bytes

pub record HdlcCodecLimits : Type 0 where
  pub maximum_frame_size : ℕ
  pub maximum_information_field_size : ℕ
  pub maximum_reassembled_information_size : ℕ
