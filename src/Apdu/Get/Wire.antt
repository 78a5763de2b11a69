-- ===== src/Apdu/Get/Wire.antt =====
-- get.cpp: the parts of the requests and responses, their bytes, and what is read off them.
use dlms.Apdu.Services.Wire.{IsDataTo}
use dlms.Prelude.{
  ℕ, ◌≤◌, ◌<◌, ◌≡◌, refl, true, false, [], ◌∷◌, ◌++◌, arith, ◌==◌, length, length-append, done,
  Bytes, bytes, Allocator,
}
use dlms.Apdu.Reader.{◌>>=◌, read_u8, remaining}
use dlms.Apdu.Wire.{
  Reads, Writes, Reads-made, read_u8-Reads, write_u8-Writes, read_u8->>=, write_u8->>,
}
use dlms.Apdu.Data.Valid.{data_bytes}
use dlms.Apdu.Data.RoundTrip.{encode_dlms_data-Writes}
use dlms.Apdu.Data.Laws.{decode_dlms_data-Reads}
use dlms.Apdu.Get.{
  GetDataResult, result_data, data_access_error, other_result, decode_chosen_result,
  encode_get_data_result, read_listed_result,
}

abbrev pub IsResult : ℕ → GetDataResult → Type 0
IsResult maximum (result_data d) = IsDataTo maximum d
IsResult maximum (data_access_error e) = Unit
IsResult maximum (other_result choice) = ⊥

abbrev pub result_bytes : GetDataResult → Bytes
result_bytes (result_data d) = 0x00 ∷ data_bytes d
result_bytes (data_access_error e) = 0x01 ∷ e ∷ []
result_bytes (other_result choice) = choice ∷ []

pub encode_get_data_result-Writes :
    (m : ℕ) (r : GetDataResult) → IsResult m r → Writes (encode_get_data_result r) (result_bytes r)
unfolding encode_get_data_result
encode_get_data_result-Writes m (result_data d) h =
    write_u8->> 0 (data_bytes d) (encode_dlms_data-Writes d h.0)
encode_get_data_result-Writes m (data_access_error e) h = write_u8->> 1 (e ∷ []) (write_u8-Writes e)
encode_get_data_result-Writes m (other_result choice) h = absurd h

module _ (alloc : Allocator) (all : (n : ℕ) → alloc n ≡ true) (m : ℕ) where
  pub decode_result-Reads :
      (r : GetDataResult)
      → IsResult m r
      → Reads (read_u8 >>= decode_chosen_result alloc m) (result_bytes r) r
  unfolding decode_chosen_result
  decode_result-Reads (result_data d) h =
      read_u8->>= _ 0x00 (data_bytes d) (result_data d)
        (Reads-made result_data (data_bytes d) d (decode_dlms_data-Reads alloc all d m h.0 h.1))
  decode_result-Reads (data_access_error e) h =
      read_u8->>= _ 0x01 (e ∷ []) (data_access_error e)
        (Reads-made data_access_error (e ∷ []) e (read_u8-Reads e))
  decode_result-Reads (other_result choice) h = absurd h

  result_some : (r : GetDataResult) → IsResult m r → 1 ≤ length (result_bytes r)
  result_some (result_data d) h = omega arith
  result_some (data_access_error e) h = omega arith
  result_some (other_result choice) h = absurd h

  listed :
      (enc rest : Bytes) (r : GetDataResult)
      → 1 ≤ length enc
      → Reads (read_u8 >>= decode_chosen_result alloc m) enc r
      → read_listed_result alloc m (bytes (enc ++ rest)) ≡ done (r, bytes rest)
  unfolding read_listed_result remaining
  listed enc rest r h hr =
      rw
        (
          present (length (enc ++ rest)) (omega (arith, length-append enc rest, h)),
          hr.law rest,
          moved (length rest) (length (enc ++ rest)) (omega (arith, length-append enc rest, h)),
        )
        refl
    where
      present : (n : ℕ) → 1 ≤ n → (n == 0) ≡ false
      present n h = ground arith

      moved : (a b : ℕ) → a < b → (a == b) ≡ false
      moved a b h = ground arith

  pub read_listed_result-Reads :
      (r : GetDataResult) → IsResult m r → Reads (read_listed_result alloc m) (result_bytes r) r
  read_listed_result-Reads r h = record {
    law = λ rest. listed (result_bytes r) rest r (result_some r h) (decode_result-Reads r h);
  }
