-- ===== src/Llc/Header.antt =====
-- lib/dlms-llc/src/llc/llc_header.cpp, with llc_types.hpp and llc_error.hpp.

use dlms.Prelude.{
  ℕ, ◌≡◌, refl, ◌↔◌, ◌⊎◌, Bool, true, false, ◌&&◌, ◌||◌, not, arith, ◌==◌, if◌then◌else◌,
}

pub data LlcStatus : Type 0 where
  ok need_more_data output_buffer_too_small : LlcStatus
  invalid_argument invalid_header invalid_dsap invalid_ssap invalid_control : LlcStatus
  invalid_lpdu_length lsdu_too_large broadcast_encode_forbidden : LlcStatus
  unsupported_address unsupported_control unsupported_feature internal_error : LlcStatus

pub data LlcDirection : Type 0 where
  client_to_server server_to_client : LlcDirection

pub record LlcHeader : Type 0 where
  pub dsap : ℕ
  pub ssap : ℕ
  pub control : ℕ

abbrev pub llc_dsap_dlms : ℕ
llc_dsap_dlms = 0xe6

abbrev pub llc_ssap_client : ℕ
llc_ssap_client = 0xe6

abbrev pub llc_ssap_server : ℕ
llc_ssap_server = 0xe7

abbrev pub llc_dsap_broadcast : ℕ
llc_dsap_broadcast = 0xff

abbrev pub llc_control_default : ℕ
llc_control_default = 0x00

abbrev pub llc_header_size : ℕ
llc_header_size = 3

unfoldable pub is_known_source_lsap : ℕ → Bool
is_known_source_lsap ssap = ssap == llc_ssap_client || ssap == llc_ssap_server

unfoldable pub make_llc_header : LlcDirection → LlcHeader
make_llc_header client_to_server = record {
  dsap = llc_dsap_dlms;
  ssap = llc_ssap_client;
  control = llc_control_default;
}
make_llc_header server_to_client = record {
  dsap = llc_dsap_dlms;
  ssap = llc_ssap_server;
  control = llc_control_default;
}

unfoldable pub is_known_dlms_llc_header : LlcHeader → Bool
unfolding is_known_source_lsap
is_known_dlms_llc_header header =
    header.dsap == llc_dsap_dlms
    && (header.control == llc_control_default && is_known_source_lsap header.ssap)

unfoldable pub validate_llc_header : LlcHeader → Bool → LlcStatus
unfolding is_known_source_lsap
validate_llc_header header allow_broadcast_destination =
    let source : LlcStatus = if not (is_known_source_lsap header.ssap) then invalid_ssap else ok in
    if not (header.control == llc_control_default)
    then unsupported_control
    else if header.dsap == llc_dsap_broadcast
    then (if not allow_broadcast_destination then broadcast_encode_forbidden else source)
    else if not (header.dsap == llc_dsap_dlms)
    then invalid_dsap
    else source

-- Without broadcast, the headers that validate are the known DLMS/COSEM headers; with broadcast,
-- also those that become known when the destination is set to the DLMS one.
pub validate_llc_header-known :
    (header : LlcHeader)
    → ((validate_llc_header header false ≡ ok) ↔ (is_known_dlms_llc_header header ≡ true))
      × ((validate_llc_header header true ≡ ok) ↔ (
          (is_known_dlms_llc_header header ≡ true)
          ⊎ ((header.dsap ≡ llc_dsap_broadcast)
              × (is_known_dlms_llc_header (record header { dsap = llc_dsap_dlms }) ≡ true))))
unfolding validate_llc_header is_known_dlms_llc_header
validate_llc_header-known header = ground arith

pub make_llc_header-validate :
    (direction : LlcDirection) (allow : Bool)
    → validate_llc_header (make_llc_header direction) allow ≡ ok
unfolding validate_llc_header make_llc_header
make_llc_header-validate client_to_server allow = refl
make_llc_header-validate server_to_client allow = refl
