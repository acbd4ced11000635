-- ===== src/Transforms/RecordOffset.antt =====
-- client-lib/src/transforms/RecordCountOffsetTransform.ts: the records from an offset on. A chunk that
-- ends before the offset is not answered: the callback is not called.
use datapm.Common.{
  ℕ, ◌+◌, ◌-◌, ◌≤◌, ◌<◌, Bool, true, false, Option, none, some, List, [], ◌∷◌, ◌++◌, length, leb,
  if◌then◌else◌, ◌≡◌, refl, subst, ap, arith,
}
use datapm.Transforms.Chunks.{
  drop, concat, length-drop, length-append, append_nil, drop-append_within,
}

pub record RecordOffset : Type 0 where
  pub start_offset : ℕ
  pub current_offset : ℕ

-- What the chunks up to now have led to. A stream waits for the callback of each chunk.
pub record Passed (A : Type 0) : Type 0 where
  pub pushed : List (List A)
  pub waits : Bool
  pub state : RecordOffset

leb_no : (a b : ℕ) → b < a → leb a b ≡ false
leb_no a b h = ground arith

leb_yes : (a b : ℕ) → a ≤ b → leb a b ≡ true
leb_yes a b h = ground arith

abbrev at_offset : ℕ → ℕ → RecordOffset
at_offset start current = record { start_offset = start; current_offset = current }

module _ {A : Type 0} where
  -- `this.currentOffset += chunk.length`
  abbrev pub advance : List A → RecordOffset → RecordOffset
  advance chunk s = record s { current_offset = s.current_offset + length chunk }

  -- `chunk.splice(0, this.startOffset - this.currentOffset + 1)`, which changes the chunk.
  abbrev pub spliced : List A → RecordOffset → List A
  spliced chunk s = drop (s.start_offset - s.current_offset + 1) chunk

  -- `_transform`: the chunk of the callback, if there is one, and the new state.
  unfoldable pub transform : List A → RecordOffset → Option (List A) × RecordOffset
  transform chunk s =
      if leb s.start_offset s.current_offset
      then (some chunk, advance chunk s)
      else if leb s.start_offset (s.current_offset + length chunk)
      then (some (spliced chunk s), advance (spliced chunk s) s)
      else (none, advance chunk s)

  unfoldable pub run : List (List A) → RecordOffset → Passed A
  unfolding transform
  run [] s = record { pushed = []; waits = true; state = s }
  run (chunk ∷ chunks) s =
      let rest = run chunks (transform chunk s).1 in
      elim ((transform chunk s).0) [
        | none ↦ record { pushed = []; waits = false; state = (transform chunk s).1 }
        | some sent ↦ record rest { pushed = sent ∷ rest.pushed }
      ]

  transform-past :
      (chunk : List A) (start current : ℕ)
      → start ≤ current
      → transform chunk (at_offset start current)
        ≡ (some chunk, at_offset start (current + length chunk))
  unfolding transform
  transform-past chunk start current h = rw (leb_yes start current h) refl

  transform-reaching :
      (chunk : List A) (start current : ℕ)
      → current < start
      → start ≤ current + length chunk
      → let left = drop (start - current + 1) chunk in
        transform chunk (at_offset start current)
        ≡ (some left, at_offset start (current + length left))
  unfolding transform
  transform-reaching chunk start current h k =
      rw (leb_no start current h, leb_yes start (current + length chunk) k) refl

  transform-short :
      (chunk : List A) (start current : ℕ)
      → current + length chunk < start
      → transform chunk (at_offset start current) ≡ (none, at_offset start (current + length chunk))
  unfolding transform
  transform-short chunk start current h =
      rw (leb_no start current (omega arith), leb_no start (current + length chunk) h) refl

  -- Once the offset is reached, each chunk is passed on.
  run-past :
      (chunks : List (List A)) (start current : ℕ)
      → start ≤ current
      → (run chunks (at_offset start current)).pushed ≡ chunks
  unfolding run
  run-past [] start current h = refl
  run-past (chunk ∷ chunks) start current h =
      rw (transform-past chunk start current h, run, transform-past chunk start current h)
        (ap (λ cs. chunk ∷ cs) (run-past chunks start (current + length chunk) (omega arith)))

  -- The first chunk that reaches an offset above 0. The count goes on from what was left of it.
  run_reaching :
      (start current : ℕ) (chunk : List A) (chunks : List (List A))
      → current < start
      → start ≤ current + length chunk
      → (run (chunk ∷ chunks) (at_offset start current)).pushed
        ≡ drop (start - current + 1) chunk
          ∷ (run chunks
              (at_offset start (current + length (drop (start - current + 1) chunk)))).pushed
  unfolding run
  run_reaching start current chunk chunks h k =
      rw
        (
          transform-reaching chunk start current h k,
          run,
          transform-reaching chunk start current h k,
        )
        refl

  run_first :
      (start : ℕ) (chunk : List A) (chunks : List (List A))
      → 0 < start
      → start ≤ length chunk
      → (run (chunk ∷ chunks) (at_offset start 0)).pushed
        ≡ drop (start + 1) chunk
          ∷ (run chunks (at_offset start (length (drop (start + 1) chunk)))).pushed
  run_first start chunk chunks h k =
      let e : start - 0 + 1 ≡ start + 1 = omega arith in
      let z : 0 + length (drop (start + 1) chunk) ≡ length (drop (start + 1) chunk) = omega arith in
      subst
        (λ n.
          (run (chunk ∷ chunks) (at_offset start 0)).pushed
          ≡ drop (start + 1) chunk ∷ (run chunks (at_offset start n)).pushed)
        z
        (subst
          (λ n.
            (run (chunk ∷ chunks) (at_offset start 0)).pushed
            ≡ drop n chunk ∷ (run chunks (at_offset start (0 + length (drop n chunk)))).pushed)
          e (run_reaching start 0 chunk chunks h (omega arith)))

  -- A first chunk that has the offset and as many records again after it: the records after the one at
  -- the offset are passed on, in whatever chunks they come.
  run-from_long :
      (start : ℕ) (chunk : List A) (chunks : List (List A))
      → 0 < start
      → start + (start + 1) ≤ length chunk
      → concat (run (chunk ∷ chunks) (record { start_offset = start; current_offset = 0 })).pushed
        ≡ drop (start + 1) (concat (chunk ∷ chunks))
  run-from_long start chunk chunks h k =
      let left = length-drop (start + 1) chunk in
      rw
        (
          run_first start chunk chunks h (omega arith),
          run-past chunks start (length (drop (start + 1) chunk)) (omega arith),
          drop-append_within (start + 1) chunk (concat chunks) (omega arith),
        )
        refl

  -- A first chunk that is shorter than the offset is never answered, and no record is ever passed on.
  run-from_short :
      (start : ℕ) (chunk : List A) (chunks : List (List A))
      → length chunk < start
      → let passed = run (chunk ∷ chunks) (record { start_offset = start; current_offset = 0 }) in
        (passed.pushed ≡ []) × (passed.waits ≡ false)
  unfolding run
  run-from_short start chunk chunks h = (
    rw (transform-short chunk start 0 (omega arith), run) refl,
    rw (transform-short chunk start 0 (omega arith), run) refl,
  )

  run_cut_again :
      (start : ℕ) (chunk next : List A)
      → 0 < start
      → start ≤ length chunk
      → length chunk < start + (start + 1)
      → start < length next
      → concat (run (chunk ∷ next ∷ []) (at_offset start 0)).pushed
        ≡ drop (start + 1) chunk ++ drop (start - length (drop (start + 1) chunk) + 1) next
  unfolding run
  run_cut_again start chunk next h k l m =
      let left = length-drop (start + 1) chunk in
      rw
        (
          run_first start chunk (next ∷ []) h k,
          run_reaching start (length (drop (start + 1) chunk)) next [] (omega arith) (omega arith),
          append_nil (drop (start - length (drop (start + 1) chunk) + 1) next),
        )
        refl

  -- A first chunk that has the offset, but not as many records again after it, is followed by a second
  -- chunk that is cut as well, if it is longer than the offset: fewer records are passed on than there are after the one at the
  -- offset.
  pub run-loses :
      (start : ℕ) (chunk next : List A)
      → 0 < start
      → start ≤ length chunk
      → length chunk < start + (start + 1)
      → start < length next
      → length (
          concat
            (run (chunk ∷ next ∷ []) (record { start_offset = start; current_offset = 0 })).pushed)
        < length (drop (start + 1) (chunk ++ next))
  run-loses start chunk next h k l m =
      let left = length-drop (start + 1) chunk in
      let all = length-drop (start + 1) (chunk ++ next) in
      let both = length-append chunk next in
      let cut = length-drop (start - length (drop (start + 1) chunk) + 1) next in
      rw
        (
          run_cut_again start chunk next h k l m,
          length-append (drop (start + 1) chunk)
              (drop (start - length (drop (start + 1) chunk) + 1) next),
        )
        (omega arith)
