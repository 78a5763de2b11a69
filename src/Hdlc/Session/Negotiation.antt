-- ===== src/Hdlc/Session/Negotiation.antt =====
-- hdlc_session.cpp: the parameters in the Information field of SNRM and UA frames.
use dlms.Prelude.{
  ℕ, zero, suc, ◌+◌, ◌*◌, ◌%◌, ◌<◌, min, ◌≡◌, refl, ◌≢◌, inl, inr, Bool, ◌&&◌, ◌||◌, not, Option,
  none, some, [], ◌∷◌, ◌++◌, arith, ltb, ◌==◌, if◌then◌else◌, length, take, drop, length-take,
  length-drop, Result, done, fail, Result-cases, Bytes, high_byte, low_byte,
}
use dlms.Hdlc.Types.{HdlcStatus, invalid_frame_format, unsupported_feature}

pub record HdlcSessionNegotiationLimits : Type 0 where
  pub max_information_field_length_transmit : ℕ
  pub max_information_field_length_receive : ℕ
  pub window_size_transmit : ℕ
  pub window_size_receive : ℕ

pub record SnrmParams : Type 0 where
  pub max_info_tx : ℕ
  pub max_info_rx : ℕ
  pub window_tx : ℕ
  pub window_rx : ℕ

abbrev pub default_max_info_field_length : ℕ
default_max_info_field_length = 128

abbrev pub default_window_size : ℕ
default_window_size = 1

abbrev pub default_snrm_params : SnrmParams
default_snrm_params = record {
  max_info_tx = default_max_info_field_length;
  max_info_rx = default_max_info_field_length;
  window_tx = default_window_size;
  window_rx = default_window_size;
}

abbrev pub default_negotiation_limits : HdlcSessionNegotiationLimits
default_negotiation_limits = record {
  max_information_field_length_transmit = default_max_info_field_length;
  max_information_field_length_receive = default_max_info_field_length;
  window_size_transmit = default_window_size;
  window_size_receive = default_window_size;
}

unfoldable pub is_default_negotiation_limits : HdlcSessionNegotiationLimits → Bool
is_default_negotiation_limits l =
    l.max_information_field_length_transmit == default_max_info_field_length
    && l.max_information_field_length_receive == default_max_info_field_length
    && l.window_size_transmit == default_window_size
    && l.window_size_receive == default_window_size

-- The loop of `ParseBeValue`; the shift drops what does not fit 32 bits.
unfoldable pub be_loop : ℕ → Bytes → ℕ
be_loop result [] = result
be_loop result (b ∷ bs) = be_loop (result * 256 % 0x1_0000_0000 + b) bs

unfoldable pub parse_be_value : Bytes → ℕ
unfolding be_loop
parse_be_value bs = be_loop 0 bs

-- The `switch` on the tag.
unfoldable pub with_param : ℕ → ℕ → SnrmParams → Result HdlcStatus SnrmParams
with_param tag value params =
    if tag == 0x05
    then done (record params { max_info_tx = value })
    else if tag == 0x06
    then done (record params { max_info_rx = value })
    else if tag == 0x07
    then done (record params { window_tx = value })
    else if tag == 0x08
    then done (record params { window_rx = value })
    else fail unsupported_feature

-- The loop of `ParseSnrmInfoField` on the bytes of the group that are left. `none` is no result of
-- the code: the fuel ran out.
unfoldable pub params_loop : ℕ → Bytes → SnrmParams → Option (Result HdlcStatus SnrmParams)
params_loop zero group params = none
params_loop (suc fuel) [] params = some (done params)
params_loop (suc fuel) (tag ∷ []) params = some (fail invalid_frame_format)
params_loop (suc fuel) (tag ∷ len ∷ rest) params =
    if len == 0 || (ltb 4 len || ltb (length rest) len)
    then some (fail invalid_frame_format)
    else elim (with_param tag (parse_be_value (take len rest)) params) [
      | done params' ↦ params_loop fuel (drop len rest) params'
      | fail s ↦ some (fail s)
    ]

-- The parameters and `negotiationConsumed`.
abbrev pub with_consumed :
    ℕ → Option (Result HdlcStatus SnrmParams) → Option (Result HdlcStatus (SnrmParams × ℕ))
with_consumed n none = none
with_consumed n (some (done params)) = some (done (params, n))
with_consumed n (some (fail s)) = some (fail s)

-- Each parameter takes three bytes at least.
unfoldable pub parse_snrm_info_field : Bytes → Option (Result HdlcStatus (SnrmParams × ℕ))
parse_snrm_info_field (a ∷ b ∷ group_len ∷ rest) =
    if not (a == 0x81 && b == 0x80)
    then some (done (default_snrm_params, 0))
    else if ltb (length rest) group_len
    then some (fail invalid_frame_format)
    else with_consumed (3 + group_len)
        (params_loop (suc group_len) (take group_len rest) default_snrm_params)
parse_snrm_info_field _ = some (done (default_snrm_params, 0))

unfoldable pub encode_snrm_negotiation_block : SnrmParams → Bytes
encode_snrm_negotiation_block params =
    0x81
    ∷ 0x80
    ∷ 0x14
    ∷ 0x05
    ∷ 0x02
    ∷ high_byte params.max_info_tx
    ∷ low_byte params.max_info_tx
    ∷ 0x06
    ∷ 0x02
    ∷ high_byte params.max_info_rx
    ∷ low_byte params.max_info_rx
    ∷ 0x07
    ∷ 0x04
    ∷ 0
    ∷ 0
    ∷ 0
    ∷ low_byte params.window_tx
    ∷ 0x08
    ∷ 0x04
    ∷ 0
    ∷ 0
    ∷ 0
    ∷ low_byte params.window_rx
    ∷ []

unfoldable pub negotiate_params : SnrmParams → HdlcSessionNegotiationLimits → SnrmParams
negotiate_params proposed here = record {
  max_info_tx = min proposed.max_info_tx here.max_information_field_length_receive;
  max_info_rx = min proposed.max_info_rx here.max_information_field_length_transmit;
  window_tx = min proposed.window_tx here.window_size_receive;
  window_rx = min proposed.window_rx here.window_size_transmit;
}

-- A SNRM or UA that carries the block with parameters that fit its fields is parsed to these
-- parameters, and the bytes behind the block are left for the user information.
pub parse-encode_block :
    (params : SnrmParams) (user_information : Bytes)
    → params.max_info_tx < 65536
    → params.max_info_rx < 65536
    → params.window_tx < 256
    → params.window_rx < 256
    → parse_snrm_info_field (encode_snrm_negotiation_block params ++ user_information)
      ≡ some (done (params, 23))
unfolding parse_snrm_info_field encode_snrm_negotiation_block params_loop with_param parse_be_value
    be_loop
parse-encode_block params user_information a b c d = ground arith

with_consumed-some :
    (n : ℕ) (o : Option (Result HdlcStatus SnrmParams)) → with_consumed n o ≡ none → o ≡ none
with_consumed-some n none e = refl
with_consumed-some n (some (done params)) e = cc
with_consumed-some n (some (fail s)) e = cc

params_loop-some :
    (fuel : ℕ) (group : Bytes) (params : SnrmParams)
    → length group < fuel
    → params_loop fuel group params ≢ none
unfolding params_loop
params_loop-some zero group params h = absurd (omega arith)
params_loop-some (suc fuel) [] params h = cc
params_loop-some (suc fuel) (tag ∷ []) params h = cc
params_loop-some (suc fuel) (tag ∷ len ∷ rest) params h =
    elim (Result-cases (with_param tag (parse_be_value (take len rest)) params)) [
      | inl (params', e) ↦
          ground (arith, e, params_loop-some fuel (drop len rest) params', length-drop len rest)
      | inr (s, e) ↦ ground (arith, e)
    ]

-- On every Information field the loop of `ParseSnrmInfoField` leaves through one of the code's
-- exits within as many rounds as the group has bytes and one more.
pub parse_snrm_info_field_ends : (info : Bytes) → parse_snrm_info_field info ≢ none
unfolding parse_snrm_info_field
parse_snrm_info_field_ends [] = cc
parse_snrm_info_field_ends (a ∷ []) = cc
parse_snrm_info_field_ends (a ∷ b ∷ []) = cc
parse_snrm_info_field_ends (a ∷ b ∷ group_len ∷ rest) = ground (
  arith,
  params_loop-some (suc group_len) (take group_len rest) default_snrm_params,
  length-take group_len rest,
  with_consumed-some (3 + group_len)
      (params_loop (suc group_len) (take group_len rest) default_snrm_params),
)
