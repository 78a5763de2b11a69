-- ===== src/Apdu/Reader.antt =====
-- lib/dlms-apdu/src/apdu/apdu_reader.cpp.
use dlms.Prelude.{
  ℕ, ◌+◌, ◌-◌, ◌*◌, Bool, [], ◌∷◌, ltb, ◌==◌, if◌then◌else◌, take, drop, Result, done, fail,
  is_null_data, Span, null, bytes, size,
}
use dlms.Apdu.Types.{
  ApduStatus, ApduError, Parser, refused, need_more_data, invalid_argument, invalid_length,
}

infixl 5 ◌>>=◌
unfoldable pub ◌>>=◌ : {A B : Type 0} → Parser A → (A → Parser B) → Parser B
◌>>=◌ p f s = elim (p s) [ done (a, s') ↦ f a s' | fail e ↦ fail e ]

abbrev pub pure : {A : Type 0} → A → Parser A
pure a s = done (a, s)

abbrev pub refuse : {A : Type 0} → ApduStatus → Parser A
refuse status s = fail (refused status)

unfoldable pub remaining : Span → ℕ
remaining s = size s

unfoldable pub is_empty : Span → Bool
is_empty s = size s == 0

-- `data_ + position_` with a size that is left, and what is behind it.
abbrev pub take_span : ℕ → Span → Span
take_span n (null m) = null n
take_span n (bytes xs) = bytes (take n xs)

abbrev pub drop_span : ℕ → Span → Span
drop_span n (null m) = null (m - n)
drop_span n (bytes xs) = bytes (drop n xs)

unfoldable pub read_u8 : Parser ℕ
read_u8 (null n) = fail (refused (if n == 0 then need_more_data else invalid_argument))
read_u8 (bytes []) = fail (refused need_more_data)
read_u8 (bytes (b ∷ bs)) = done (b, bytes bs)

-- The checks that `ReadU16`, `ReadU32` and `ReadBytes` make before they read.
unfoldable pub with_room : {A : Type 0} → ℕ → Parser A → Parser A
with_room n p s =
    if is_null_data s
    then fail (refused invalid_argument)
    else if ltb (size s) n
    then fail (refused need_more_data)
    else p s

unfoldable pub read_u16 : Parser ℕ
unfolding ◌>>=◌ with_room read_u8
read_u16 = with_room 2 do high ← read_u8; low ← read_u8; pure (high * 256 + low)

unfoldable pub read_u32 : Parser ℕ
unfolding ◌>>=◌ with_room read_u8
read_u32 = with_room 4 do
  b0 ← read_u8
  b1 ← read_u8
  b2 ← read_u8
  b3 ← read_u8
  pure (b0 * 16777216 + b1 * 65536 + b2 * 256 + b3)

unfoldable pub read_bytes : ℕ → Parser Span
unfolding with_room
read_bytes n = with_room n (λ s. done (take_span n s, drop_span n s))

unfoldable pub skip : ℕ → Parser (Unit {0})
unfolding ◌>>=◌ read_bytes
skip n = do ignored ← read_bytes n; pure tt

-- `RequireNoTrailingBytes` of get.cpp, set.cpp and action.cpp.
unfoldable pub require_no_trailing_bytes : Parser (Unit {0})
unfolding is_empty
require_no_trailing_bytes s = if is_empty s then done (tt, s) else fail (refused invalid_length)

-- A decoder: the check of its input, and what it reads from there.
unfoldable pub decode_with : {A : Type 0} → Parser A → Span → Result ApduError A
decode_with p input =
    if is_null_data input
    then fail (refused invalid_argument)
    else elim (p input) [ done (a, s) ↦ done a | fail e ↦ fail e ]
