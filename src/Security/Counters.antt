-- ===== src/Security/Counters.antt =====
-- lib/dlms-security/src/security/in_memory_invocation_counter_store.cpp.
pub mod Laws
use dlms.Prelude.{
  ℕ, zero, suc, ◌+◌, ◌-◌, ◌*◌, ◌/◌, ◌%◌, ◌^◌, ◌≤◌, ◌<◌, min, ◌≡◌, refl, sym, ap, ◌∙◌, ◌≢◌, ◌↔◌, ◌⊎◌,
  inl, inr, Bool, true, false, ◌&&◌, ◌||◌, not, Option, none, some, List, [], ◌∷◌, ◌++◌, map,
  append_assoc, append-nil, arith, ltb, leb, ◌==◌, if◌then◌else◌, ltb→lt, lt→ltb, le→ltb,
  ltb-false→le, ==→eq, Bool-cases, Option-cases, length, get_or, take, drop, replicate, All, concat,
  length-append, length-take, length-drop, length-replicate, take-append-drop, take-append_le,
  drop-append_le, get_or-append_lt, take-append_length, drop-append_length, drop-drop,
  take-append_ge, get_or-append_length, All-append, eq-nil, take-length, Result, done, fail,
  Result-cases, IsDone, Bytes, IsByte, is_null_data, contents, Span, null, bytes, Allocator,
  high_byte, low_byte, join_bytes, overwrite, size, Written, tests,
}
use dlms.Security.Types.{
  SecurityStatus, SecurityKeyRole, invocation_counter_exhausted, invalid_invocation_counter,
  replay_detected, invalid_system_title,
}

-- The map is from the system titles that were met.
pub record Counters : Type 0 where
  pub next_local_counter : ℕ
  pub highest_remote : ℕ
  pub highest_remote_by_system_title : Bytes → Option ℕ

-- The status of a call, with its result, and the store behind it.
abbrev pub Counted : Type 0 → Type 0
Counted A = Counters → Result SecurityStatus A × Counters

infixl 5 ◌>>=◌
unfoldable pub ◌>>=◌ : {A B : Type 0} → Counted A → (A → Counted B) → Counted B
◌>>=◌ f g c = elim (f c).0 [ done a ↦ g a (f c).1 | fail e ↦ (fail e, (f c).1) ]

unfoldable pub same_bytes : Bytes → Bytes → Bool
same_bytes [] [] = true
same_bytes [] (y ∷ ys) = false
same_bytes (x ∷ xs) [] = false
same_bytes (x ∷ xs) (y ∷ ys) = x == y && same_bytes xs ys

unfoldable pub new_counters : Counters
new_counters = record {
  next_local_counter = 1;
  highest_remote = 0;
  highest_remote_by_system_title = λ title. none;
}

unfoldable pub set_local_counter : ℕ → Counters → Counters
set_local_counter invocation_counter c = record {
  next_local_counter = invocation_counter;
  highest_remote = c.highest_remote;
  highest_remote_by_system_title = c.highest_remote_by_system_title;
}

unfoldable pub set_highest_remote_counter : ℕ → Counters → Counters
set_highest_remote_counter invocation_counter c = record {
  next_local_counter = c.next_local_counter;
  highest_remote = invocation_counter;
  highest_remote_by_system_title = c.highest_remote_by_system_title;
}

unfoldable pub next_local : Counted ℕ
next_local c =
    if c.next_local_counter == 0xFFFF_FFFF
    then (fail invocation_counter_exhausted, c)
    else (done c.next_local_counter, set_local_counter (suc c.next_local_counter) c)

unfoldable pub validate_remote : ℕ → Counted (Unit {0})
validate_remote invocation_counter c =
    if invocation_counter == 0
    then (fail invalid_invocation_counter, c)
    else if leb invocation_counter c.highest_remote
    then (fail replay_detected, c)
    else (done tt, set_highest_remote_counter invocation_counter c)

-- `highestRemoteBySystemTitle_[key] = invocationCounter`.
unfoldable pub set_counter_of : Bytes → ℕ → Counters → Counters
set_counter_of title invocation_counter c = record {
  next_local_counter = c.next_local_counter;
  highest_remote = c.highest_remote;
  highest_remote_by_system_title = λ other.
      if same_bytes other title
      then some invocation_counter
      else c.highest_remote_by_system_title other;
}

unfoldable pub validate_remote_for_system_title : Span → ℕ → Counted (Unit {0})
validate_remote_for_system_title (null n) invocation_counter c = (fail invalid_system_title, c)
validate_remote_for_system_title (bytes title) invocation_counter c =
    if not (length title == 8)
    then (fail invalid_system_title, c)
    else if invocation_counter == 0
    then (fail invalid_invocation_counter, c)
    else elim (c.highest_remote_by_system_title title) [
      | none ↦ (done tt, set_counter_of title invocation_counter c)
      | some highest ↦
          if leb invocation_counter highest
          then (fail replay_detected, c)
          else (done tt, set_counter_of title invocation_counter c)
    ]

-- The role is not used.
unfoldable pub reset_after_key_rotation : SecurityKeyRole → Counted (Unit {0})
reset_after_key_rotation role c = (done tt, new_counters)
