-- ===== src/Apdu/Types.antt =====
-- lib/dlms-apdu/include/dlms/apdu: apdu_error.hpp and how a call of these codecs ends.
use dlms.Prelude.{Result, Bytes, Span}

pub data ApduStatus : Type 0 where
  ok need_more_data output_buffer_too_small : ApduStatus
  invalid_argument invalid_tag invalid_length invalid_ber invalid_axdr invalid_choice : ApduStatus
  invalid_data invalid_invoke_id invalid_descriptor invalid_conformance : ApduStatus
  unsupported_apdu unsupported_acse_field unsupported_xdlms_service : ApduStatus
  unsupported_data_type unsupported_feature pdu_too_large internal_error : ApduStatus

-- A status other than Ok, or an exception: `std::vector::reserve` throws where it is refused the
-- memory, and nothing in these codecs catches that.
pub data ApduError : Type 0 where
  refused : ApduStatus → ApduError
  thrown : ApduError

-- Reads a value off the bytes at the reader's position. `ApduReader` is the span that is left:
-- `Remaining()` is its size, and `Position()` only ever counts what one call has taken.
abbrev pub Parser : Type 0 → Type 0
Parser A = Span → Result ApduError (A × Span)

-- `ApduWriter`: the bytes in front of `position_`, and the buffer from there on.
pub record ApduWriter : Type 0 where
  pub written : Bytes
  pub rest : Span

-- Of a call that fails the status alone is modelled, not the bytes it had written before.
abbrev pub Encoder : Type 0
Encoder = ApduWriter → Result ApduError ApduWriter
