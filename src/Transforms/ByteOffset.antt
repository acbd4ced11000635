-- ===== src/Transforms/ByteOffset.antt =====
-- client-lib/src/transforms/ByteCountOffsetTransform.ts: the bytes from an offset on. A chunk is the
-- list of its bytes; `subarray` from a negative start does not arise, as the test before it excludes
-- it.
use datapm.Common.{
  ℕ, ◌+◌, ◌-◌, List, [], ◌∷◌, ◌++◌, length, ltb, leb, ltb-true, ltb-false, leb-true, leb-false,
  if◌then◌else◌, ◌≡◌, sym, ap, ◌∙◌, arith, inl, inr, Bool-cases,
}
use datapm.Transforms.Chunks.{drop, concat, drop_nil, drop-append_past, drop-append_within}

pub record ByteOffset : Type 0 where
  pub start_offset : ℕ
  pub current_offset : ℕ

module _ {A : Type 0} where
  abbrev pub advance : List A → ByteOffset → ByteOffset
  advance chunk s = record {
    start_offset = s.start_offset;
    current_offset = s.current_offset + length chunk;
  }

  -- `_transform`: the chunks that are pushed, and the new state.
  unfoldable pub transform : List A → ByteOffset → List (List A) × ByteOffset
  transform chunk s =
      if ltb (length chunk + s.current_offset) s.start_offset
      then ([], advance chunk s)
      else if leb s.current_offset s.start_offset
      then (drop (s.start_offset - s.current_offset) chunk ∷ [], advance chunk s)
      else (chunk ∷ [], advance chunk s)

  -- The chunks of a stream in order.
  unfoldable pub run : List (List A) → ByteOffset → List (List A)
  unfolding transform
  run [] s = []
  run (chunk ∷ chunks) s = let (pushed, next) = transform chunk s in pushed ++ run chunks next

  run-drops_from :
      (chunks : List (List A)) (start current : ℕ)
      → concat (run chunks (record { start_offset = start; current_offset = current }))
        ≡ drop (start - current) (concat chunks)
  unfolding run transform
  run-drops_from [] start current = sym (drop_nil (start - current))
  run-drops_from (chunk ∷ chunks) start current =
      let rest = run-drops_from chunks start (current + length chunk) in
      elim (Bool-cases (ltb (length chunk + current) start)) [
        | inl below ↦
            let h = ltb-true _ _ below in
            rw below (
              rest
              ∙ sym (
                  drop-append_past (start - current) (start - (current + length chunk)) chunk
                    (concat chunks) (omega arith)))
        | inr past ↦
            let h = ltb-false _ _ past in
            let none_left : start - (current + length chunk) ≡ 0 = omega arith in
            let later = rest ∙ ap (λ k. drop k (concat chunks)) none_left in
            elim (Bool-cases (leb current start)) [
              | inl within ↦
                  let k = leb-true _ _ within in
                  rw (past, within)
                    (append_step _ later
                      ∙ sym (
                          drop-append_within (start - current) chunk (concat chunks) (omega arith)))
              | inr beyond ↦
                  let k = leb-false _ _ beyond in
                  let zero_left : start - current ≡ 0 = omega arith in
                  rw (past, beyond)
                    (append_step _ later
                      ∙ ap (λ k. drop k (chunk ++ concat chunks)) (sym zero_left))
            ]
      ]
    where
      append_step : (xs : List A) {ys zs : List A} → ys ≡ zs → xs ++ ys ≡ xs ++ zs
      append_step xs e = ap (λ ys. xs ++ ys) e

  -- Whatever chunks a stream comes in, the pushed ones together are its bytes from the start offset
  -- on.
  pub run-drops :
      (start : ℕ) (chunks : List (List A))
      → concat (run chunks (record { start_offset = start; current_offset = 0 }))
        ≡ drop start (concat chunks)
  run-drops start chunks =
      run-drops_from chunks start 0 ∙ ap (λ k. drop k (concat chunks)) (omega arith)
