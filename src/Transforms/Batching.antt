-- ===== src/Transforms/Batching.antt =====
-- client-lib/src/transforms/BatchingTransform.ts: chunks are buffered and pushed in arrays. The loop
-- of `_flush` is given as many rounds as the buffer is long, and comes to no result if the buffer is
-- not empty after them, as is so only for a size of 0. `push` is taken not to throw.
use datapm.Common.{
  ℕ, zero, suc, ◌≤◌, ◌<◌, Bool, true, false, Option, none, some, List, [], ◌∷◌, ◌++◌, length, leb,
  leb-false, if◌then◌else◌, All, All-append, ◌≡◌, refl, sym, ap, subst, ◌∙◌, arith, inl, inr,
  Bool-cases,
}
use datapm.Transforms.Chunks.{
  take, drop, concat, take-drop, append_assoc, concat-append, append_nil, length-take_le,
  length-drop_le,
}

-- What `_transform` is given: an array, or any other value.
pub data Chunk (A : Type 0) : Type 0 where
  an_array : List A → Chunk A
  a_value : A → Chunk A

-- What happens to the transform: a chunk comes, or its timer ends.
pub data Event (A : Type 0) : Type 0 where
  chunk : Chunk A → Event A
  timer_ends : Event A

pub record Batching (A : Type 0) : Type 0 where
  pub buffer : List A
  pub max_size : ℕ
  pub timeout : Bool

module _ {A : Type 0} where
  abbrev pub items : Chunk A → List A
  items (an_array xs) = xs
  items (a_value x) = x ∷ []

  abbrev pub push_first : List A → Option (List (List A)) → Option (List (List A))
  push_first batch none = none
  push_first batch (some batches) = some (batch ∷ batches)

  -- `while (buffer.length > 0) push(buffer.splice(0, maxSize))`, in so many rounds.
  unfoldable pub splices : ℕ → ℕ → List A → Option (List (List A))
  splices rounds size [] = some []
  splices zero size (x ∷ xs) = none
  splices (suc rounds) size (x ∷ xs) =
      push_first (take size (x ∷ xs)) (splices rounds size (drop size (x ∷ xs)))

  abbrev pub flushed : ℕ → Option (List (List A)) → Option (List (List A) × Batching A)
  flushed size none = none
  flushed size (some batches) =
      some (batches, record { buffer = []; max_size = size; timeout = false })

  unfoldable pub flush : Batching A → Option (List (List A) × Batching A)
  unfolding splices
  flush s = flushed s.max_size (splices (length s.buffer) s.max_size s.buffer)

  unfoldable pub transform : Chunk A → Batching A → Option (List (List A) × Batching A)
  unfolding flush
  transform c s =
      let buffer = s.buffer ++ items c in
      if leb s.max_size (length buffer)
      then flush (record { buffer = buffer; max_size = s.max_size; timeout = s.timeout })
      else some ([], record { buffer = buffer; max_size = s.max_size; timeout = true })

  -- The timer ends only while it is set.
  unfoldable pub step : Event A → Batching A → Option (List (List A) × Batching A)
  unfolding transform flush
  step (chunk c) s = transform c s
  step timer_ends s = if s.timeout then flush s else some ([], s)

  abbrev pub pushed_before :
      List (List A) → Option (List (List A) × Batching A) → Option (List (List A) × Batching A)
  pushed_before batches none = none
  pushed_before batches (some (more, s)) = some (batches ++ more, s)

  abbrev pub continued :
      Option (List (List A) × Batching A)
      → (Batching A → Option (List (List A) × Batching A))
      → Option (List (List A) × Batching A)
  continued none rest = none
  continued (some (batches, next)) rest = pushed_before batches (rest next)

  -- The events of a stream in order, and `_final`.
  unfoldable pub run : List (Event A) → Batching A → Option (List (List A) × Batching A)
  unfolding flush step
  run [] s = flush s
  run (e ∷ es) s = continued (step e s) (λ next. run es next)

  -- The items that come in with the events.
  abbrev pub incoming : List (Event A) → List A
  incoming [] = []
  incoming (chunk c ∷ es) = items c ++ incoming es
  incoming (timer_ends ∷ es) = incoming es

  -- A batch is not empty and not larger than the size.
  abbrev pub Sized : ℕ → List A → Type 0
  Sized size batch = (0 < length batch) × (length batch ≤ size)

  splices-total :
      (rounds size : ℕ) (xs : List A)
      → 0 < size
      → length xs ≤ rounds
      → (batches : List (List A)) × (splices rounds size xs ≡ some batches)
        × (concat batches ≡ xs)
        × All (Sized size) batches
  unfolding splices
  splices-total rounds size [] p h = ([], refl, refl, tt)
  splices-total zero size (x ∷ xs) p h = absurd (omega arith)
  splices-total (suc rounds) zero (x ∷ xs) p h = absurd (omega arith)
  splices-total (suc rounds) (suc size) (x ∷ xs) p h =
      let shorter = length-drop_le size xs in
      let small = length-take_le size xs in
      let (batches, e, whole, sized) =
        splices-total rounds (suc size) (drop size xs) p (omega arith) in
      (
        (x ∷ take size xs) ∷ batches,
        ap (push_first (x ∷ take size xs)) e,
        ap (λ ys. x ∷ (take size xs ++ ys)) whole ∙ ap (λ ys. x ∷ ys) (take-drop size xs),
        ((omega arith, omega arith), sized),
      )

  flush-total :
      (s : Batching A)
      → 0 < s.max_size
      → (batches : List (List A)) × (flush s
          ≡ some (batches, record { buffer = []; max_size = s.max_size; timeout = false }))
        × (concat batches ≡ s.buffer)
        × All (Sized s.max_size) batches
  unfolding flush
  flush-total s p =
      let (batches, e, whole, sized) =
        splices-total (length s.buffer) s.max_size s.buffer p (omega arith) in
      (batches, ap (flushed s.max_size) e, whole, sized)

  -- What a step has pushed, and what it keeps.
  abbrev pub Stepped : Batching A → List A → List (List A) → Batching A → Type 0
  Stepped s xs batches next =
      (next.max_size ≡ s.max_size)
      × (concat batches ++ next.buffer ≡ s.buffer ++ xs)
      × All (Sized s.max_size) batches
      × (length next.buffer < s.max_size)

  step-total :
      (e : Event A) (s : Batching A)
      → length s.buffer < s.max_size
      → (batches : List (List A)) × (next : Batching A) × (step e s ≡ some (batches, next))
        × Stepped s (incoming (e ∷ [])) batches next
  unfolding step transform
  step-total (chunk c) s h =
      let buffer = s.buffer ++ items c in
      elim (Bool-cases (leb s.max_size (length buffer))) [
        | inl full ↦
            let (batches, e, whole, sized) =
              flush-total (record { buffer = buffer; max_size = s.max_size; timeout = s.timeout })
                (omega arith) in
            (
              batches,
              record { buffer = []; max_size = s.max_size; timeout = false },
              rw full e,
              (
                refl,
                append_nil (concat batches)
                    ∙ whole
                    ∙ ap (λ ys. s.buffer ++ ys) (sym (append_nil (items c))),
                sized,
                omega arith,
              ),
            )
        | inr room ↦
            let k = leb-false _ _ room in
            (
              [],
              record { buffer = buffer; max_size = s.max_size; timeout = true },
              rw room,
              (refl, ap (λ ys. s.buffer ++ ys) (sym (append_nil (items c))), tt, k),
            )
      ]
  step-total timer_ends s h = elim (Bool-cases s.timeout) [
    | inl due ↦
        let (batches, e, whole, sized) = flush-total s (omega arith) in
        (
          batches,
          record { buffer = []; max_size = s.max_size; timeout = false },
          ap (λ b. if b then flush s else some ([], s)) due ∙ e,
          (
            refl,
            append_nil (concat batches) ∙ whole ∙ sym (append_nil s.buffer),
            sized,
            omega arith,
          ),
        )
    | inr off ↦ (
      [],
      s,
      ap (λ b. if b then flush s else some ([], s)) off,
      (refl, sym (append_nil s.buffer), tt, h),
    )
  ]

  incoming_first :
      (event : Event A) (events : List (Event A))
      → incoming (event ∷ events) ≡ incoming (event ∷ []) ++ incoming events
  incoming_first (chunk c) events = ap (λ ys. ys ++ incoming events) (sym (append_nil (items c)))
  incoming_first timer_ends events = refl

  -- If the buffer holds fewer items than the size, as a new transform with a size above 0 does, then
  -- whatever chunks come and whenever the timer ends, the transform does not run for ever. The
  -- batches that it has pushed at the end of the stream are, one after the other, the items of the
  -- buffer and those that came in, in their order; no batch is empty or larger than the size; and
  -- the buffer is empty and the timer off.
  pub run-conserves :
      (events : List (Event A)) (s : Batching A)
      → length s.buffer < s.max_size
      → (batches : List (List A)) × (final : Batching A) × (run events s ≡ some (batches, final))
        × (concat batches ≡ s.buffer ++ incoming events)
        × All (Sized s.max_size) batches
        × (final.buffer ≡ [])
        × (final.timeout ≡ false)
  unfolding run
  run-conserves [] s h =
      let (batches, e, whole, sized) = flush-total s (omega arith) in
      (batches, _, e, whole ∙ sym (append_nil s.buffer), sized, refl, refl)
  run-conserves (event ∷ events) s h =
      let (batches, next, e, (same_size, kept, sized, k)) = step-total event s h in
      let (later, final, e', whole, sized', empty, off) =
        run-conserves events next (rw same_size k) in
      (
        batches ++ later,
        final,
        ap (λ o. continued o (λ n. run events n)) e ∙ ap (pushed_before batches) e',
        concat-append batches later
            ∙ ap (λ ys. concat batches ++ ys) whole
            ∙ sym (append_assoc (concat batches) next.buffer (incoming events))
            ∙ ap (λ ys. ys ++ incoming events) kept
            ∙ append_assoc s.buffer (incoming (event ∷ [])) (incoming events)
            ∙ ap (λ ys. s.buffer ++ ys) (sym (incoming_first event events)),
        All-append (Sized s.max_size) batches later sized
            (subst (λ size. All (Sized size) later) same_size sized'),
        empty,
        off,
      )
