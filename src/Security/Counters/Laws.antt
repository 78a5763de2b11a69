-- ===== src/Security/Counters/Laws.antt =====
-- in_memory_invocation_counter_store.cpp: which counters are given out and which are accepted.
use dlms.Prelude.{
  ℕ, zero, suc, ◌-◌, ◌≤◌, ◌<◌, min, ◌≡◌, refl, sym, ap, ◌∙◌, inl, inr, Bool, true, false, none,
  some, List, [], ◌∷◌, arith, leb, ◌==◌, if◌then◌else◌, ==→eq, Bool-cases, Option-cases, length,
  Result, done, fail, Bytes, bytes, size,
}
use dlms.Security.Types.{
  invocation_counter_exhausted, SecurityStatus, invalid_invocation_counter, replay_detected,
  invalid_system_title,
}
use dlms.Security.Counters.{
  Counters, same_bytes, next_local, set_local_counter, validate_remote_for_system_title,
  set_counter_of,
}

-- Each of the numbers is larger than the one in front of it, and the first larger than `low`.
unfoldable pub IsAbove : ℕ → List ℕ → Type 0
IsAbove low [] = Unit
IsAbove low (x ∷ xs) = (low < x) × IsAbove x xs

-- The highest counter that is kept for a title: 0 where there is none.
unfoldable pub highest_of : Bytes → Counters → ℕ
highest_of title c = elim (c.highest_remote_by_system_title title) [ none ↦ 0 | some n ↦ n ]

-- The counters in front of `rest`, with one more where its call was accepted and had the title.
unfoldable pub counted_in : Bool → ℕ → Result SecurityStatus (Unit {0}) → List ℕ → List ℕ
counted_in mine n (done _) rest = if mine then n ∷ rest else rest
counted_in mine n (fail e) rest = rest

-- The counters of `title` that `ValidateRemoteForSystemTitle` accepts, of a sequence of calls with
-- any titles.
unfoldable pub accepted_of : Bytes → List (Bytes × ℕ) → Counters → List ℕ
accepted_of title [] c = []
accepted_of title ((other, n) ∷ calls) c =
    counted_in (same_bytes title other) n (validate_remote_for_system_title (bytes other) n c).0
      (accepted_of title calls (validate_remote_for_system_title (bytes other) n c).1)

same_bytes-eq : (xs ys : Bytes) → same_bytes xs ys ≡ true → xs ≡ ys
unfolding same_bytes
same_bytes-eq [] [] h = refl
same_bytes-eq [] (y ∷ ys) h = cc
same_bytes-eq (x ∷ xs) [] h = cc
same_bytes-eq (x ∷ xs) (y ∷ ys) h = elim (Bool-cases (x == y)) [
  | inl e ↦ rw (==→eq x y e) (ap (λ zs. y ∷ zs) (same_bytes-eq xs ys (rw e at h)))
  | inr e ↦ absurd (ground arith)
]

pub same_bytes_refl : (xs : Bytes) → same_bytes xs xs ≡ true
unfolding same_bytes
same_bytes_refl [] = refl
same_bytes_refl (x ∷ xs) = rw (same_bytes_refl xs) (ground arith)

highest_of-set :
    (title other : Bytes) (n : ℕ) (c : Counters)
    → highest_of title (set_counter_of other n c)
      ≡ (if same_bytes title other then n else highest_of title c)
unfolding highest_of set_counter_of
highest_of-set title other n c = elim (Bool-cases (same_bytes title other)) [
  | inl e ↦ rw (e, highest_of) refl
  | inr e ↦ rw (e, highest_of) refl
]

-- A call that is accepted raises the highest counter of its title; one that is refused changes
-- nothing.
pub data Validated (title : Bytes) (n : ℕ) (c : Counters)
    : Result SecurityStatus (Unit {0}) × Counters → Type 0 where
  raised :
      length title ≡ 8
      → highest_of title c < n
      → Validated title n c (done tt, set_counter_of title n c)
  unchanged : (e : SecurityStatus) → Validated title n c (fail e, c)

pub validate-known :
    (title : Bytes) (n : ℕ) (c : Counters)
    → Validated title n c (validate_remote_for_system_title (bytes title) n c)
unfolding validate_remote_for_system_title highest_of
validate-known title n c = elim (Bool-cases (length title == 8)) [
  | inr short ↦ rw short (unchanged invalid_system_title)
  | inl eight ↦ rw eight (elim (Bool-cases (n == 0)) [
    | inl zero_counter ↦ rw zero_counter (unchanged invalid_invocation_counter)
    | inr positive ↦ rw positive (elim (Option-cases (c.highest_remote_by_system_title title)) [
      | inl e ↦ rw e (raised (==→eq _ _ eight) (rw (e, highest_of) (ground arith)))
      | inr (highest, e) ↦ rw e (elim (Bool-cases (leb n highest)) [
        | inl old ↦ rw old (unchanged replay_detected)
        | inr new ↦ rw new (raised (==→eq _ _ eight) (rw (e, highest_of) (ground arith)))
      ])
    ])
  ])
]

-- The same call once more.
pub validate-again :
    (title : Bytes) (n : ℕ) (c : Counters)
    → length title ≡ 8
    → 0 < n
    → validate_remote_for_system_title (bytes title) n (set_counter_of title n c)
      ≡ (fail replay_detected, set_counter_of title n c)
unfolding validate_remote_for_system_title set_counter_of
validate-again title n c h new = rw (h, positive n new, same_bytes_refl title, reached n) refl
  where
    positive : (n : ℕ) → 0 < n → (n == 0) ≡ false
    positive n h = ground arith

    reached : (n : ℕ) → leb n n ≡ true
    reached n = ground arith

counted_in-IsAbove :
    (title other : Bytes) (n : ℕ) (c : Counters) (r : Result SecurityStatus (Unit {0}) × Counters)
    (rest : List ℕ)
    → Validated other n c r
    → IsAbove (highest_of title r.1) rest
    → IsAbove (highest_of title c) (counted_in (same_bytes title other) n r.0 rest)
unfolding counted_in IsAbove
counted_in-IsAbove title other n c (done _, c') rest (raised size h) above =
    elim (Bool-cases (same_bytes title other)) [
      | inl e ↦ rw e (
        rw (ap (λ t. highest_of t c) (same_bytes-eq title other e)) h,
        rw (highest_of-set title other n c, e) at above,
      )
      | inr e ↦ rw e (rw (highest_of-set title other n c, e) at above)
    ]
counted_in-IsAbove title other n c (fail _, c') rest (unchanged e) above = above

-- Of any sequence of validations with any titles, in any state of the store: the counters that are
-- accepted for one title are larger than the highest one kept for it at the start, and each is
-- larger than those accepted before, so that none is accepted twice.
pub accepted_of-IsAbove :
    (title : Bytes) (calls : List (Bytes × ℕ)) (c : Counters)
    → IsAbove (highest_of title c) (accepted_of title calls c)
unfolding accepted_of IsAbove
accepted_of-IsAbove title [] c = tt
accepted_of-IsAbove title ((other, n) ∷ calls) c =
    counted_in-IsAbove title other n c (validate_remote_for_system_title (bytes other) n c) _
      (validate-known other n c)
      (accepted_of-IsAbove title calls (validate_remote_for_system_title (bytes other) n c).1)

unfoldable pub given_in : Result SecurityStatus ℕ → List ℕ → List ℕ
given_in (done n) rest = n ∷ rest
given_in (fail e) rest = rest

-- The counters that a number of calls of `NextLocal` give.
unfoldable pub given_out : ℕ → Counters → List ℕ
given_out zero c = []
given_out (suc calls) c = given_in (next_local c).0 (given_out calls (next_local c).1)

unfoldable pub count_from : ℕ → ℕ → List ℕ
count_from k zero = []
count_from k (suc n) = k ∷ count_from (suc k) n

next_local-spent :
    (c : Counters)
    → (c.next_local_counter == 0xFFFF_FFFF) ≡ true
    → next_local c ≡ (fail invocation_counter_exhausted, c)
unfolding next_local
next_local-spent c e = rw e refl

pub next_local-fresh :
    (c : Counters)
    → (c.next_local_counter == 0xFFFF_FFFF) ≡ false
    → next_local c ≡ (done c.next_local_counter, set_local_counter (suc c.next_local_counter) c)
unfolding next_local
next_local-fresh c e = rw e refl

-- A number of calls of `NextLocal`, from a store whose next counter is 2^32 - 1 at most, give the
-- counters from that one on, each once, until 2^32 - 2; the calls after that are refused.
pub given_out-count_from :
    (calls : ℕ) (c : Counters)
    → c.next_local_counter ≤ 0xFFFF_FFFF
    → given_out calls c
      ≡ count_from c.next_local_counter (min calls (0xFFFF_FFFF - c.next_local_counter))
unfolding given_out given_in count_from set_local_counter
given_out-count_from zero c h = rw (no_calls (0xFFFF_FFFF - c.next_local_counter)) refl
  where
    no_calls : (x : ℕ) → min 0 x ≡ 0
    no_calls x = omega arith
given_out-count_from (suc calls) c h = elim (Bool-cases (c.next_local_counter == 0xFFFF_FFFF)) [
  | inl e ↦
      ap (λ r. given_in r.0 (given_out calls r.1)) (next_local-spent c e)
      ∙ given_out-count_from calls c h
      ∙ ap (count_from c.next_local_counter)
          (spent c.next_local_counter (==→eq c.next_local_counter 0xFFFF_FFFF e))
  | inr e ↦
      ap (λ r. given_in r.0 (given_out calls r.1)) (next_local-fresh c e)
      ∙ ap (λ xs. c.next_local_counter ∷ xs)
          (given_out-count_from calls (set_local_counter (suc c.next_local_counter) c)
            (below c.next_local_counter h e))
      ∙ ap (count_from c.next_local_counter)
          (sym (one_more c.next_local_counter (below c.next_local_counter h e)))
]
  where
    spent :
        (k : ℕ) → k ≡ 0xFFFF_FFFF → min calls (0xFFFF_FFFF - k) ≡ min (suc calls) (0xFFFF_FFFF - k)
    spent k e = omega arith

    below : (k : ℕ) → k ≤ 0xFFFF_FFFF → (k == 0xFFFF_FFFF) ≡ false → suc k ≤ 0xFFFF_FFFF
    below k h e = ground arith

    one_more :
        (k : ℕ)
        → suc k ≤ 0xFFFF_FFFF
        → min (suc calls) (0xFFFF_FFFF - k) ≡ suc (min calls (0xFFFF_FFFF - suc k))
    one_more k h = omega arith
