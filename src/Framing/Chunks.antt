-- ===== src/Framing/Chunks.antt =====
-- How a stream is cut into chunks does not matter to the loop.
use dlms.Prelude.{
  ℕ, zero, suc, ◌<◌, ◌≡◌, refl, sym, ◌∙◌, ◌≢◌, ◌⊎◌, inl, inr, List, [], ◌∷◌, ◌++◌, append_assoc,
  append-nil, arith, length, concat, Bytes,
}
use dlms.Framing.Loop.{
  Round, wait, Drained, waits, refused, stuck, Framing, drain, drain-ne-stuck, drain-wait,
  drain-refuse, drain-emit, Round-cases,
}

-- Pushing chunk after chunk, each with a fresh frame list, until one is refused. `frames` collects
-- what the pushes handed out.
module _ {ℓ κ} {F : Type ℓ} {S : Type κ} (round : Bytes → Round F S) where
  unfoldable pub feed : Bytes → List F → List Bytes → Drained F S
  feed kept frames [] = waits kept frames
  feed kept frames (chunk ∷ chunks) = elim (drain round (kept ++ chunk) []) [
    | waits r fs ↦ feed r (frames ++ fs) chunks
    | refused s fs ↦ refused s (frames ++ fs)
    | stuck ↦ stuck
  ]

-- Frames pushed earlier stand in front.
abbrev pub prepend {ℓ κ} : {F : Type ℓ} {S : Type κ} → List F → Drained F S → Drained F S
prepend fs (waits r gs) = waits r (fs ++ gs)
prepend fs (refused s gs) = refused s (fs ++ gs)
prepend fs stuck = stuck

module _ {ℓ κ} {F : Type ℓ} {S : Type κ} (framing : Framing F S) where
  open framing use {round, round-empty, round-wait, round-refuse, round-emit, round-shrinks}

  drain-prepend_fuel :
      (n : ℕ) (a : Bytes) (fs gs : List F)
      → length a < n
      → drain round a (fs ++ gs) ≡ prepend fs (drain round a gs)
  drain-prepend_fuel zero a fs gs h = absurd (omega arith)
  drain-prepend_fuel (suc n) a fs gs h = elim (Round-cases framing (round a)) [
    | inl (r, e) ↦ rw (drain-wait framing a r (fs ++ gs) e, drain-wait framing a r gs e)
    | inr (inl (s, e)) ↦ rw (drain-refuse framing a s (fs ++ gs) e, drain-refuse framing a s gs e)
    | inr (inr (f, r, e)) ↦
        let shrinks = round-shrinks a r f e in
        rw (drain-emit framing a r f (fs ++ gs) e, drain-emit framing a r f gs e, append_assoc)
          (drain-prepend_fuel n r fs (gs ++ f ∷ []) (omega arith))
  ]

  pub drain-prepend : (a : Bytes) (fs : List F) → drain round a fs ≡ prepend fs (drain round a [])
  drain-prepend a fs =
      rw (append-nil fs) at (drain-prepend_fuel (suc (length a)) a fs [] (omega arith))

  drain-round :
      (a b : Bytes) (fs : List F) → round a ≡ round b → drain round a fs ≡ drain round b fs
  drain-round a b fs e = elim (Round-cases framing (round b)) [
    | inl (r, q) ↦ drain-wait framing a r fs (e ∙ q) ∙ sym (drain-wait framing b r fs q)
    | inr (inl (s, q)) ↦ drain-refuse framing a s fs (e ∙ q) ∙ sym (drain-refuse framing b s fs q)
    | inr (inr (f, r, q)) ↦
        drain-emit framing a r f fs (e ∙ q) ∙ sym (drain-emit framing b r f fs q)
  ]

  drain-append_fuel :
      (n : ℕ) (a b r : Bytes) (fs gs : List F)
      → length a < n
      → drain round a fs ≡ waits r gs
      → drain round (a ++ b) fs ≡ drain round (r ++ b) gs
  drain-append_fuel zero a b r fs gs h d = absurd (omega arith)
  drain-append_fuel (suc n) a b r fs gs h d = elim (Round-cases framing (round a)) [
    | inl (k, e) ↦
        let same = sym (drain-wait framing a k fs e) ∙ d in
        rw (drain-round (a ++ b) (k ++ b) fs (round-wait a b k e)) (cc same)
    | inr (inl (s, e)) ↦ cc (drain-refuse framing a s fs e)
    | inr (inr (f, k, e)) ↦
        let shrinks = round-shrinks a k f e in
        drain-emit framing (a ++ b) (k ++ b) f fs (round-emit a b k f e)
        ∙ drain-append_fuel n k b r (fs ++ f ∷ []) gs (omega arith)
            (sym (drain-emit framing a k f fs e) ∙ d)
  ]

  -- Bytes that arrive later are handled as if they had been there at once.
  pub drain-append :
      (a b r : Bytes) (fs gs : List F)
      → drain round a fs ≡ waits r gs
      → drain round (a ++ b) fs ≡ drain round (r ++ b) gs
  drain-append a b r fs gs = drain-append_fuel (suc (length a)) a b r fs gs (omega arith)

  drain-append_refused_fuel :
      (n : ℕ) (a b : Bytes) (s : S) (fs gs : List F)
      → length a < n
      → drain round a fs ≡ refused s gs
      → drain round (a ++ b) fs ≡ refused s gs
  drain-append_refused_fuel zero a b s fs gs h d = absurd (omega arith)
  drain-append_refused_fuel (suc n) a b s fs gs h d = elim (Round-cases framing (round a)) [
    | inl (k, e) ↦ cc (drain-wait framing a k fs e)
    | inr (inl (t, e)) ↦
        drain-refuse framing (a ++ b) t fs (round-refuse a b t e)
        ∙ (sym (drain-refuse framing a t fs e) ∙ d)
    | inr (inr (f, k, e)) ↦
        let shrinks = round-shrinks a k f e in
        drain-emit framing (a ++ b) (k ++ b) f fs (round-emit a b k f e)
        ∙ drain-append_refused_fuel n k b s (fs ++ f ∷ []) gs (omega arith)
            (sym (drain-emit framing a k f fs e) ∙ d)
  ]

  -- Nor do they mend a refused stream.
  pub drain-append_refused :
      (a b : Bytes) (s : S) (fs gs : List F)
      → drain round a fs ≡ refused s gs
      → drain round (a ++ b) fs ≡ refused s gs
  drain-append_refused a b s fs gs =
      drain-append_refused_fuel (suc (length a)) a b s fs gs (omega arith)

  drain-quiet_fuel :
      (n : ℕ) (a r : Bytes) (fs gs : List F)
      → length a < n
      → drain round a fs ≡ waits r gs
      → round r ≡ wait r
  drain-quiet_fuel zero a r fs gs h d = absurd (omega arith)
  drain-quiet_fuel (suc n) a r fs gs h d = elim (Round-cases framing (round a)) [
    | inl (k, e) ↦
        let again = round-wait a [] k e in
        let same = drain-wait framing a k fs e in cc (append-nil a, append-nil k)
    | inr (inl (s, e)) ↦ cc (drain-refuse framing a s fs e)
    | inr (inr (f, k, e)) ↦
        let shrinks = round-shrinks a k f e in
        drain-quiet_fuel n k r (fs ++ f ∷ []) gs (omega arith)
          (sym (drain-emit framing a k f fs e) ∙ d)
  ]

  -- The bytes that the loop keeps hold no whole frame.
  pub drain-quiet :
      (a r : Bytes) (fs gs : List F) → drain round a fs ≡ waits r gs → round r ≡ wait r
  drain-quiet a r fs gs = drain-quiet_fuel (suc (length a)) a r fs gs (omega arith)

  pub Drained-cases :
      (m : Drained F S)
      → m ≢ stuck
      → ((r : Bytes) × (fs : List F) × (m ≡ waits r fs))
        ⊎ ((s : S) × (fs : List F) × (m ≡ refused s fs))
  Drained-cases (waits r fs) h = inl (r, fs, refl)
  Drained-cases (refused s fs) h = inr (s, fs, refl)
  Drained-cases stuck h = absurd (h refl)

  -- A stream that is accepted whole is accepted in any chunks, with the same frames and the same
  -- bytes kept.
  pub feed-drain :
      (chunks : List Bytes) (kept r : Bytes) (frames gs : List F)
      → round kept ≡ wait kept
      → drain round (kept ++ concat chunks) frames ≡ waits r gs
      → feed round kept frames chunks ≡ waits r gs
  unfolding feed
  feed-drain [] kept r frames gs q d =
      sym (drain-wait framing kept kept frames q) ∙ rw append-nil at d
  feed-drain (chunk ∷ chunks) kept r frames gs q d =
      elim (Drained-cases (drain round (kept ++ chunk) []) (drain-ne-stuck framing _ [])) [
        | inl (k, fs, e) ↦
            let whole : drain round (kept ++ chunk) frames ≡ waits k (frames ++ fs) =
              rw (drain-prepend (kept ++ chunk) frames, e) refl in
            rw (e, feed)
              (feed-drain chunks k r (frames ++ fs) gs (drain-quiet _ _ _ _ e) (
                sym (drain-append (kept ++ chunk) (concat chunks) k frames (frames ++ fs) whole)
                ∙ rw append_assoc d))
        | inr (s, fs, e) ↦
            let whole : drain round (kept ++ chunk) frames ≡ refused s (frames ++ fs) =
              rw (drain-prepend (kept ++ chunk) frames, e) refl in
            let bad =
              drain-append_refused (kept ++ chunk) (concat chunks) s frames (frames ++ fs) whole in
            cc (append_assoc kept chunk (concat chunks))
      ]
