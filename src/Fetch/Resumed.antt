-- ===== src/Fetch/Resumed.antt =====
-- client-lib/src/util/SchemaUtil.ts: a stream that is resumed passes on what the sink did not have at the
-- start, however arrivals and writes follow each other.
use datapm.Common.{
  ℕ, zero, suc, ◌≤◌, ◌<◌, Option, none, some, List, [], ◌∷◌, ◌++◌, ◌≡◌, refl, sym, ap, subst, ◌∙◌,
  ◌⊎◌, inl, inr, All, All-append, All-map, true, ltb-true, Bool-cases, arith,
}
use datapm.Transforms.Chunks.{append_assoc, append_nil}
use datapm.Fetch.Resume.{
  RecordContext, is_after, chunks_after, Resuming, Happening, arrive, write_sent, offset_after, nth,
  happen, happen_all, arrivals, AtLeast, next_low, IsIncreasing,
}

next_low_le : (low : ℕ) (offset : Option ℕ) → AtLeast low offset → low ≤ next_low low offset
next_low_le low none h = omega arith
next_low_le low (some offset) h = omega arith

module _ (start : ℕ) where
  -- The offset now is the one at the start, or one between it and those to come.
  abbrev IsReached : ℕ → ℕ → Type 0
  IsReached low now = (now ≡ start) ⊎ ((start < now) × (now < low))

  abbrev IsBetween : ℕ → Option ℕ → Type 0
  IsBetween low none = Unit
  IsBetween low (some offset) = (start < offset) × (offset < low)

  IsBetween-le :
      (low high : ℕ) (offset : Option ℕ) → low ≤ high → IsBetween low offset → IsBetween high offset
  IsBetween-le low high none le h = tt
  IsBetween-le low high (some offset) le (h, k) = (h, omega arith)

  is_after_same :
      (low now : ℕ) (offset : Option ℕ)
      → IsReached low now
      → AtLeast low offset
      → is_after (some now) offset ≡ is_after (some start) offset
  is_after_same low now none h k = refl
  is_after_same low now (some offset) h k = ground arith

  IsReached-le : (low high now : ℕ) → low ≤ high → IsReached low now → IsReached high now
  IsReached-le low high now le (inl e) = inl e
  IsReached-le low high now le (inr (h, k)) = inr (h, omega arith)

  IsReached-next :
      (low now : ℕ) (offset : Option ℕ)
      → IsReached low now
      → AtLeast low offset
      → IsReached (next_low low offset) now
  IsReached-next low now none h k = h
  IsReached-next low now (some offset) (inl e) k = inl e
  IsReached-next low now (some offset) (inr (h, l)) k = inr (h, omega arith)

-- A record that is passed on lies between the start and those to come.
is_after-IsBetween :
    (start low high : ℕ) (offset : Option ℕ)
    → is_after (some start) offset ≡ true
    → next_low low offset ≤ high
    → IsBetween start high offset
is_after-IsBetween start low high none e le = tt
is_after-IsBetween start low high (some offset) e le = (ltb-true start offset e, omega arith)

module _ {R : Type 0} where
  abbrev low_after : ℕ → List (RecordContext R) → ℕ
  low_after low [] = low
  low_after low (chunk ∷ chunks) = low_after (next_low low chunk.offset) chunks

  IsIncreasing-append :
      (low : ℕ) (xs ys : List (RecordContext R))
      → IsIncreasing low (xs ++ ys)
      → IsIncreasing low xs × IsIncreasing (low_after low xs) ys
  IsIncreasing-append low [] ys h = (tt, h)
  IsIncreasing-append low (x ∷ xs) ys (p, h) =
      let (k, l) = IsIncreasing-append (next_low low x.offset) xs ys h in ((p, k), l)

  low_after_le :
      (low : ℕ) (xs : List (RecordContext R)) → IsIncreasing low xs → low ≤ low_after low xs
  low_after_le low [] h = omega arith
  low_after_le low (x ∷ xs) (p, h) =
      let k = next_low_le low x.offset p in
      let l = low_after_le (next_low low x.offset) xs h in omega arith

  chunks_after-append :
      (stream_offset : Option ℕ) (xs ys : List (RecordContext R))
      → chunks_after stream_offset (xs ++ ys)
        ≡ chunks_after stream_offset xs ++ chunks_after stream_offset ys
  unfolding chunks_after
  chunks_after-append stream_offset [] ys = refl
  chunks_after-append stream_offset (x ∷ xs) ys =
      elim (Bool-cases (is_after stream_offset x.offset)) [
        | inl e ↦ rw e (ap (λ zs. x ∷ zs) (chunks_after-append stream_offset xs ys))
        | inr n ↦ rw n (chunks_after-append stream_offset xs ys)
      ]

module _ {R : Type 0} (start : ℕ) where
  chunks_after_same :
      (low now : ℕ) (xs : List (RecordContext R))
      → IsReached start low now
      → IsIncreasing low xs
      → chunks_after (some now) xs ≡ chunks_after (some start) xs
  unfolding chunks_after
  chunks_after_same low now [] h k = refl
  chunks_after_same low now (x ∷ xs) h (p, k) =
      rw
        (
          is_after_same start low now x.offset h p,
          chunks_after_same (next_low low x.offset) now xs
              (IsReached-next start low now x.offset h p) k,
        )
        refl

  chunks_after-IsBetween :
      (low : ℕ) (xs : List (RecordContext R))
      → IsIncreasing low xs
      → All (λ x. IsBetween start (low_after low xs) x.offset) (chunks_after (some start) xs)
  unfolding chunks_after
  chunks_after-IsBetween low [] h = tt
  chunks_after-IsBetween low (x ∷ xs) (p, h) =
      let rest = chunks_after-IsBetween (next_low low x.offset) xs h in
      elim (Bool-cases (is_after (some start) x.offset)) [
        | inl e ↦
            let le = low_after_le (next_low low x.offset) xs h in
            rw e (is_after-IsBetween start low _ x.offset e le, rest)
        | inr n ↦ rw n rest
      ]

  -- A write of a record that was passed on keeps the offset between the start and those to come.
  offset_after-IsReached :
      (low now n : ℕ) (xs : List (RecordContext R))
      → All (λ x. IsBetween start low x.offset) xs
      → IsReached start low now
      → (next : ℕ) × (offset_after (nth n xs) (some now) ≡ some next) × IsReached start low next
  offset_after-IsReached low now n [] h r = (now, refl, r)
  offset_after-IsReached low now (suc n) (x ∷ xs) (p, h) r = offset_after-IsReached low now n xs h r
  offset_after-IsReached low now zero (x ∷ xs) (p, h) r = written x.offset p
    where
      written :
          (offset : Option ℕ)
          → IsBetween start low offset
          → (next : ℕ) × ((elim offset as (λ o. Option ℕ) [ none ↦ some now | some o ↦ some o ])
              ≡ some next)
            × IsReached start low next
      written none p = (now, refl, r)
      written (some offset) p = (offset, refl, inr p)

  happen_all-sent :
      (low now : ℕ) (events : List (Happening R)) (s : Resuming R)
      → s.stream_offset ≡ some now
      → IsReached start low now
      → All (λ x. IsBetween start low x.offset) s.sent
      → IsIncreasing low (arrivals events)
      → (happen_all events s).sent ≡ s.sent ++ chunks_after (some start) (arrivals events)
  unfolding happen_all happen
  happen_all-sent low now [] s e r h k = unfold chunks_after in sym (append_nil s.sent)
  happen_all-sent low now (arrive chunks ∷ events) s e r h k =
      let (here, later) = IsIncreasing-append low chunks (arrivals events) k in
      let le = low_after_le low chunks here in
      let passed = ap (λ o. chunks_after o chunks) e ∙ chunks_after_same low now chunks r here in
      let between =
        All-append (λ x. IsBetween start (low_after low chunks) x.offset) s.sent
          (chunks_after s.stream_offset chunks)
          (All-map _ _ (λ x p. IsBetween-le start low _ x.offset le p) s.sent h)
          (subst (λ xs. All (λ x. IsBetween start (low_after low chunks) x.offset) xs) (sym passed)
            (chunks_after-IsBetween low chunks here)) in
      happen_all-sent (low_after low chunks) now events (happen (arrive chunks) s) e
        (IsReached-le start low _ now le r) between later
      ∙ ap (λ xs. (s.sent ++ xs) ++ chunks_after (some start) (arrivals events)) passed
      ∙ append_assoc s.sent _ _
      ∙ ap (λ xs. s.sent ++ xs) (sym (chunks_after-append (some start) chunks (arrivals events)))
  happen_all-sent low now (write_sent n ∷ events) s e r h k =
      let (next, moves, reached) = offset_after-IsReached low now n s.sent h r in
      happen_all-sent low next events (happen (write_sent n) s)
        (ap (λ o. offset_after (nth n s.sent) o) e ∙ moves) reached h k

  -- When the offsets of the records that arrive increase strictly, what is passed on is exactly the
  -- records that are after the offset at the start or have none, in order, whichever of those passed
  -- on are written in between, and in whichever order.
  pub happen_all-resumes :
      (events : List (Happening R))
      → IsIncreasing 0 (arrivals events)
      → (happen_all events (record { stream_offset = some start; sent = [] })).sent
        ≡ chunks_after (some start) (arrivals events)
  happen_all-resumes events h =
      happen_all-sent 0 start events (record { stream_offset = some start; sent = [] }) refl
        (inl refl) tt h
