-- ===== src/Prelude/Buffers.antt =====
-- Byte buffers as the C++ interfaces pass them, and 16-bit fields.
use Prim.Native.Nat.{ℕ, ◌+◌, ◌*◌, ◌/◌, ◌%◌, ◌<◌}
use mathlib.Core.Bool.{Bool, false, not}
use mathlib.Core.List.{List, [], ◌++◌}
use dlms.Prelude.Tests.{◌==◌}
use dlms.Prelude.Lists.{length, take, drop}

abbrev pub Bytes : Type 0
Bytes = List ℕ

abbrev pub IsByte : ℕ → Type 0
IsByte b = b < 256

-- A pointer and a size: a null pointer passed with a size, or a pointer to that many bytes.
pub data Span : Type 0 where
  null : ℕ → Span
  bytes : Bytes → Span

-- Whether a vector can be given that many elements: `false` stands for a `std::bad_alloc`.
abbrev pub Allocator : Type 0
Allocator = ℕ → Bool

-- The two bytes of a `std::uint16_t`, and the number that two bytes make.
abbrev pub high_byte : ℕ → ℕ
high_byte v = v / 256 % 256

abbrev pub low_byte : ℕ → ℕ
low_byte v = v % 256

abbrev pub join_bytes : ℕ → ℕ → ℕ
join_bytes high low = high * 256 + low

-- The bytes of `old` with those from `at` on replaced by `new`.
abbrev pub overwrite : ℕ → Bytes → Bytes → Bytes
overwrite at new old = take at old ++ (new ++ drop (at + length new) old)

abbrev pub size : Span → ℕ
size (null n) = n
size (bytes xs) = length xs

-- The bytes that a call may read at the pointer.
abbrev pub contents : Span → Bytes
contents (null n) = []
contents (bytes xs) = xs

-- `data == 0 && size != 0`
abbrev pub is_null_data : Span → Bool
is_null_data (null n) = not (n == 0)
is_null_data (bytes xs) = false

-- What an encoder into a buffer of the caller leaves behind: its status, `writtenSize`, the buffer.
pub record Written {ℓ} (S : Type ℓ) : Type ℓ where
  pub status : S
  pub written_size : ℕ
  pub output : Span
