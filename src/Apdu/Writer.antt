-- ===== src/Apdu/Writer.antt =====
-- lib/dlms-apdu/src/apdu/apdu_writer.cpp.
use dlms.Prelude.{
  ℕ, ◌/◌, ◌%◌, ◌||◌, [], ◌∷◌, ◌++◌, ltb, ◌==◌, if◌then◌else◌, Result, done, fail, Bytes,
  is_null_data, contents, Span, null, bytes, high_byte, low_byte, size,
}
use dlms.Apdu.Types.{
  ApduError, ApduWriter, Encoder, refused, output_buffer_too_small, invalid_argument, ApduStatus,
}
use dlms.Apdu.Reader.{drop_span}

infixl 5 ◌>>◌
unfoldable pub ◌>>◌ : Encoder → Encoder → Encoder
◌>>◌ f g w = elim (f w) [ done w' ↦ g w' | fail e ↦ fail e ]

-- `ApduWriter(data, size)`.
abbrev pub new_writer : Span → ApduWriter
new_writer output = record { written = []; rest = output }

unfoldable pub put_byte : ℕ → Bytes → Span → Result ApduError ApduWriter
put_byte value out (null n) =
    fail (refused (if n == 0 then output_buffer_too_small else invalid_argument))
put_byte value out (bytes []) = fail (refused output_buffer_too_small)
put_byte value out (bytes (b ∷ bs)) = done (record { written = out ++ value ∷ []; rest = bytes bs })

unfoldable pub write_u8 : ℕ → Encoder
unfolding put_byte
write_u8 value w = put_byte value w.written w.rest

-- The checks that the writes of several bytes make first.
unfoldable pub with_space : ℕ → Encoder → Encoder
with_space n f w =
    if is_null_data w.rest
    then fail (refused invalid_argument)
    else if ltb (size w.rest) n
    then fail (refused output_buffer_too_small)
    else f w

unfoldable pub write_u16 : ℕ → Encoder
unfolding ◌>>◌ with_space write_u8
write_u16 value = with_space 2 do write_u8 (high_byte value); write_u8 (low_byte value)

unfoldable pub write_u32 : ℕ → Encoder
unfolding ◌>>◌ with_space write_u8
write_u32 value = with_space 4 do
  write_u8 (value / 16777216 % 256)
  write_u8 (value / 65536 % 256)
  write_u8 (value / 256 % 256)
  write_u8 (value % 256)

unfoldable pub write_bytes : Span → Encoder
write_bytes input w =
    if is_null_data w.rest || is_null_data input
    then fail (refused invalid_argument)
    else if ltb (size w.rest) (size input)
    then fail (refused output_buffer_too_small)
    else done
        (record { written = w.written ++ contents input; rest = drop_span (size input) w.rest })

-- `if (writer.Remaining() < n) return OutputBufferTooSmall;` in front of the writes of the codecs.
unfoldable pub with_remaining : ℕ → Encoder → Encoder
with_remaining n f w = if ltb (size w.rest) n then fail (refused output_buffer_too_small) else f w

abbrev pub refuse_write : ApduStatus → Encoder
refuse_write status w = fail (refused status)
