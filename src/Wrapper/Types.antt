-- ===== src/Wrapper/Types.antt =====
-- lib/dlms-wrapper/include/dlms/wrapper: wrapper_error.hpp, wrapper_frame.hpp, wrapper_codec.hpp
-- and the constants of wrapper_ports.hpp.
use dlms.Prelude.{ℕ, ◌+◌, Bytes, Span}

pub data WrapperStatus : Type 0 where
  ok need_more_data output_buffer_too_small : WrapperStatus
  invalid_argument invalid_version invalid_length : WrapperStatus
  invalid_source_port invalid_destination_port : WrapperStatus
  data_too_large frame_too_large unsupported_feature internal_error : WrapperStatus

pub record WrapperHeader : Type 0 where
  pub version : ℕ
  pub source_port : ℕ
  pub destination_port : ℕ
  pub data_length : ℕ

-- A view: `payload` is the pair of `data` and `dataSize`.
pub record WrapperFrame : Type 0 where
  pub source_port : ℕ
  pub destination_port : ℕ
  pub payload : Span

-- An owning frame: `payload` is the vector `data`.
pub record WrapperFrameBuffer : Type 0 where
  pub source_port : ℕ
  pub destination_port : ℕ
  pub payload : Bytes

pub record WrapperCodecLimits : Type 0 where
  pub maximum_data_size : ℕ
  pub maximum_frame_size : ℕ

abbrev pub wrapper_version : ℕ
wrapper_version = 1

abbrev pub wrapper_header_size : ℕ
wrapper_header_size = 8

abbrev pub maximum_wrapper_data_length : ℕ
maximum_wrapper_data_length = 0xffff

abbrev pub maximum_wrapper_frame_length : ℕ
maximum_wrapper_frame_length = wrapper_header_size + maximum_wrapper_data_length

abbrev pub no_station : ℕ
no_station = 0

abbrev pub client_management_process : ℕ
client_management_process = 1

abbrev pub public_client : ℕ
public_client = 0x10

abbrev pub management_logical_device : ℕ
management_logical_device = 1

abbrev pub all_station_broadcast : ℕ
all_station_broadcast = 0x7f
