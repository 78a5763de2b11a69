-- ===== src/Apdu/Items.antt =====
-- The lists of the services: a length and that many items. get.cpp, set.cpp and action.cpp write
-- these loops out at each list.
use dlms.Prelude.{
  ℕ, zero, suc, ◌<◌, ◌≡◌, true, List, [], ◌∷◌, ◌++◌, if◌then◌else◌, length, All, done, fail, Bytes,
  Allocator,
}
use dlms.Apdu.Types.{Parser, Encoder, thrown}
use dlms.Apdu.Reader.{◌>>=◌, pure}
use dlms.Apdu.Writer.{◌>>◌}
use dlms.Apdu.Wire.{Reads, Writes, Reads->>=, Writes->>, Reads-pure, Reads-made, Writes-nothing}
use dlms.Apdu.Axdr.{read_axdr_length, write_axdr_length}
use dlms.Apdu.Axdr.RoundTrip.{axdr_length_bytes, write_axdr_length-Writes, read_axdr_length-Reads}

unfoldable pub read_items : {A : Type 0} → Parser A → ℕ → Parser (List A)
read_items p zero = pure []
read_items p (suc n) = p >>= λ x. read_items p n >>= λ xs. pure (x ∷ xs)

-- `output.list.reserve(count)` throws where the memory is refused.
unfoldable pub read_list : {A : Type 0} → Allocator → Parser A → Parser (List A)
read_list alloc p = read_axdr_length >>= λ n. if alloc n then read_items p n else (λ s. fail thrown)

unfoldable pub write_items : {A : Type 0} → (A → Encoder) → List A → Encoder
write_items f [] w = done w
write_items f (x ∷ xs) w = (f x >> write_items f xs) w

unfoldable pub write_list : {A : Type 0} → (A → Encoder) → List A → Encoder
write_list f xs = write_axdr_length (length xs) >> write_items f xs

unfoldable pub items_bytes : {A : Type 0} → (A → Bytes) → List A → Bytes
items_bytes enc [] = []
items_bytes enc (x ∷ xs) = enc x ++ items_bytes enc xs

abbrev pub list_bytes : {A : Type 0} → (A → Bytes) → List A → Bytes
list_bytes enc xs = axdr_length_bytes (length xs) ++ items_bytes enc xs

-- A list whose items are in range, with a length that a `std::size_t` holds.
abbrev pub IsList : {A : Type 0} → (A → Type 0) → List A → Type 0
IsList P xs = (length xs < 0x1_0000_0000_0000_0000) × All P xs

write_items-Writes :
    {A : Type 0} (P : A → Type 0) (f : A → Encoder) (enc : A → Bytes)
    → ((x : A) → P x → Writes (f x) (enc x))
    → (xs : List A) → All P xs
    → Writes (write_items f xs) (items_bytes enc xs)
unfolding write_items items_bytes
write_items-Writes P f enc hf [] h = Writes-nothing
write_items-Writes P f enc hf (x ∷ xs) h =
    Writes->> (enc x) (items_bytes enc xs) (hf x h.0) (write_items-Writes P f enc hf xs h.1)

pub write_list-Writes :
    {A : Type 0} (P : A → Type 0) (f : A → Encoder) (enc : A → Bytes)
    → ((x : A) → P x → Writes (f x) (enc x))
    → (xs : List A) → All P xs
    → Writes (write_list f xs) (list_bytes enc xs)
unfolding write_list
write_list-Writes P f enc hf xs h =
    Writes->> (axdr_length_bytes (length xs)) (items_bytes enc xs)
      (write_axdr_length-Writes (length xs)) (write_items-Writes P f enc hf xs h)

pub read_items-Reads :
    {A : Type 0} (P : A → Type 0) (p : Parser A) (enc : A → Bytes)
    → ((x : A) → P x → Reads p (enc x) x)
    → (xs : List A) → All P xs
    → Reads (read_items p (length xs)) (items_bytes enc xs) xs
unfolding read_items items_bytes
read_items-Reads P p enc hp [] h = Reads-pure []
read_items-Reads P p enc hp (x ∷ xs) h =
    Reads->>= (λ y. read_items p (length xs) >>= λ ys. pure (y ∷ ys)) (enc x) (items_bytes enc xs) x
      (x ∷ xs) (hp x h.0)
      (Reads-made (λ ys. x ∷ ys) (items_bytes enc xs) xs (read_items-Reads P p enc hp xs h.1))

pub read_list-Reads :
    {A : Type 0} (P : A → Type 0) (alloc : Allocator) (p : Parser A) (enc : A → Bytes)
    → ((n : ℕ) → alloc n ≡ true)
    → ((x : A) → P x → Reads p (enc x) x)
    → (xs : List A) → IsList P xs
    → Reads (read_list alloc p) (list_bytes enc xs) xs
unfolding read_list
read_list-Reads P alloc p enc all hp xs h =
    Reads->>= (λ n. if alloc n then read_items p n else (λ s. fail thrown))
      (axdr_length_bytes (length xs)) (items_bytes enc xs) (length xs) xs
      (read_axdr_length-Reads (length xs) h.0)
      (rw (all (length xs)) (read_items-Reads P p enc hp xs h.1))
