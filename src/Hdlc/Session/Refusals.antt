-- ===== src/Hdlc/Session/Refusals.antt =====
-- hdlc_session.cpp, hdlc_control.cpp: no error that `ReceiveFrame` passes on has the status Ok.
use dlms.Prelude.{
  ℕ, zero, suc, ◌+◌, ◌≡◌, ◌≢◌, inl, inr, Option, none, some, [], ◌∷◌, arith, take, drop, Result,
  done, fail, Result-cases, Bytes,
}
use dlms.Hdlc.Types.{HdlcControl, HdlcStatus, ok}
use dlms.Hdlc.Control.{supervisory_kind, unnumbered_kind, supervisory_of, unnumbered_of}
use dlms.Hdlc.Session.Negotiation.{
  SnrmParams, with_param, params_loop, with_consumed, default_snrm_params, parse_be_value,
  parse_snrm_info_field,
}

-- No refusal of the Information field of a SNRM has the status Ok.
params_loop-not_ok :
    (fuel : ℕ) (group : Bytes) (params : SnrmParams)
    → params_loop fuel group params ≢ some (fail ok)
unfolding params_loop with_param
params_loop-not_ok zero group params = cc
params_loop-not_ok (suc fuel) [] params = cc
params_loop-not_ok (suc fuel) (tag ∷ []) params = cc
params_loop-not_ok (suc fuel) (tag ∷ len ∷ rest) params =
    elim (Result-cases (with_param tag (parse_be_value (take len rest)) params)) [
      | inl (params', e) ↦ ground (arith, e, params_loop-not_ok fuel (drop len rest) params')
      | inr (s, e) ↦ ground (arith, e)
    ]

with_consumed-not_ok :
    (n : ℕ) (o : Option (Result HdlcStatus SnrmParams))
    → with_consumed n o ≡ some (fail ok)
    → o ≡ some (fail ok)
with_consumed-not_ok n none e = cc
with_consumed-not_ok n (some (done params)) e = cc
with_consumed-not_ok n (some (fail s)) e = cc

pub parse_snrm_info_field-not_ok : (info : Bytes) → parse_snrm_info_field info ≢ some (fail ok)
unfolding parse_snrm_info_field
parse_snrm_info_field-not_ok [] = cc
parse_snrm_info_field-not_ok (a ∷ []) = cc
parse_snrm_info_field-not_ok (a ∷ b ∷ []) = cc
parse_snrm_info_field-not_ok (a ∷ b ∷ group_len ∷ rest) = ground (
  arith,
  params_loop-not_ok (suc group_len) (take group_len rest) default_snrm_params,
  with_consumed-not_ok (3 + group_len)
      (params_loop (suc group_len) (take group_len rest) default_snrm_params),
)

pub supervisory_kind-not_ok : (control : HdlcControl) → supervisory_kind control ≢ fail ok
unfolding supervisory_kind supervisory_of
supervisory_kind-not_ok control = ground arith

pub unnumbered_kind-not_ok : (control : HdlcControl) → unnumbered_kind control ≢ fail ok
unfolding unnumbered_kind unnumbered_of
unnumbered_kind-not_ok control = ground arith
