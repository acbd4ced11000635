-- ===== src/Transforms/Lines.antt =====
-- client-lib/src/transforms/LineCountOffsetTransform.ts: the lines of a stream, whatever chunks it comes in.
use datapm.Common.{
  ℕ, zero, suc, ◌+◌, ◌-◌, ◌<◌, false, Option, none, some, List, [], ◌∷◌, ◌++◌, length, leb, nat_eq,
  if◌then◌else◌, ◌≡◌, refl, sym, ap, ◌∙◌, inl, inr, Bool-cases, Option-cases, subst, leb-true,
  leb-false, arith,
}
use datapm.Transforms.Chunks.{drop, concat, append_assoc, append_nil, drop-append, drop_nil}
use datapm.Transforms.LineOffset.{
  LineOffset, line_feed, with_byte, first_line, take_lines, transform, run, flush,
}

-- The lines of a text, each with its line feed, and what follows the last of them.
pub record Lines : Type 0 where
  pub complete : List (List ℕ)
  pub rest : List ℕ

abbrev pub onto : ℕ → List (List ℕ) → List ℕ → Lines
onto b [] rest = record { complete = []; rest = b ∷ rest }
onto b (line ∷ lines) rest = record { complete = (b ∷ line) ∷ lines; rest = rest }

abbrev pub add_byte : ℕ → Lines → Lines
add_byte b l =
    if nat_eq b line_feed
    then record { complete = (b ∷ []) ∷ l.complete; rest = l.rest }
    else onto b l.complete l.rest

unfoldable pub lines_of : List ℕ → Lines
lines_of [] = record { complete = []; rest = [] }
lines_of (b ∷ bs) = add_byte b (lines_of bs)

abbrev followed : List (List ℕ) → Lines → Lines
followed lines l = record { complete = lines ++ l.complete; rest = l.rest }

add_byte-followed :
    (b : ℕ) (lines : List (List ℕ)) (r bs : List ℕ)
    → add_byte b (followed lines (lines_of (r ++ bs)))
      ≡ followed
          (add_byte b (record { complete = lines; rest = r })).complete
          (lines_of ((add_byte b (record { complete = lines; rest = r })).rest ++ bs))
unfolding lines_of
add_byte-followed b lines r bs = elim (Bool-cases (nat_eq b line_feed)) [
  | inl e ↦ rw e refl
  | inr n ↦ rw n (go n lines)
]
  where
    go :
        nat_eq b line_feed ≡ false
        → (ls : List (List ℕ))
        → onto b (ls ++ (lines_of (r ++ bs)).complete) (lines_of (r ++ bs)).rest
          ≡ followed (onto b ls r).complete (lines_of ((onto b ls r).rest ++ bs))
    go n [] = rw n refl
    go n (l ∷ ls) = refl

-- The lines of two chunks are those of the first, and those of what it leaves and the second.
lines_of-append :
    (xs bs : List ℕ)
    → lines_of (xs ++ bs) ≡ followed (lines_of xs).complete (lines_of ((lines_of xs).rest ++ bs))
unfolding lines_of
lines_of-append [] bs = refl
lines_of-append (a ∷ xs) bs =
    ap (add_byte a) (lines_of-append xs bs)
    ∙ add_byte-followed a (lines_of xs).complete (lines_of xs).rest bs

-- What `first_line` finds: no complete line, or the first one and fewer bytes after it.
abbrev IsSplit : List ℕ → Option (List ℕ × List ℕ) → Type 0
IsSplit bs none = lines_of bs ≡ record { complete = []; rest = bs }
IsSplit bs (some (line, rest)) =
    (lines_of bs ≡ followed (line ∷ []) (lines_of rest)) × (length rest < length bs)

first_line-IsSplit : (bs : List ℕ) → IsSplit bs (first_line bs)
unfolding first_line lines_of
first_line-IsSplit [] = refl
first_line-IsSplit (b ∷ bs) = elim (Bool-cases (nat_eq b line_feed)) [
  | inl e ↦ rw e (rw e refl, omega arith)
  | inr n ↦ rw n (step n (first_line bs) (first_line-IsSplit bs))
]
  where
    step :
        nat_eq b line_feed ≡ false
        → (found : Option (List ℕ × List ℕ)) → IsSplit bs found
        → IsSplit (b ∷ bs) (with_byte b found)
    step n none h = ap (add_byte b) h ∙ rw n refl
    step n (some (line, rest)) (h, shorter) = (ap (add_byte b) h ∙ rw n refl, omega arith)

pushed-drop :
    (start current : ℕ) (line : List ℕ) (lines : List (List ℕ))
    → (if leb start current then line ∷ [] else []) ++ drop (start - (current + 1)) lines
      ≡ drop (start - current) (line ∷ lines)
pushed-drop start current line lines = elim (Bool-cases (leb start current)) [
  | inl past ↦
      let h = leb-true _ _ past in
      let now : start - current ≡ 0 = omega arith in
      let next : start - (current + 1) ≡ 0 = omega arith in rw (past, now, next) refl
  | inr before ↦
      let h = leb-false _ _ before in
      let now : start - current ≡ suc (start - (current + 1)) = omega arith in rw (before, now) refl
]

-- The loop pushes the complete lines from the start offset on, and leaves what follows them.
take_lines_lem :
    (rounds start current : ℕ) (buffer : List ℕ)
    → length buffer < rounds
    → take_lines rounds start current buffer
      ≡ some (
        drop (start - current) (lines_of buffer).complete,
        current + length (lines_of buffer).complete,
        (lines_of buffer).rest,
      )
unfolding take_lines
take_lines_lem zero start current buffer h = absurd (omega arith)
take_lines_lem (suc rounds) start current buffer h = elim (Option-cases (first_line buffer)) [
  | inl e ↦
      let split : lines_of buffer ≡ record { complete = []; rest = buffer } =
        subst (IsSplit buffer) e (first_line-IsSplit buffer) in
      rw (e, take_lines, split, drop_nil {0} {A = List ℕ} (start - current)) (ground arith)
  | inr ((line, rest), e) ↦
      let (split, shorter) = subst (IsSplit buffer) e (first_line-IsSplit buffer) in
      rw (e, take_lines, split, take_lines_lem rounds start (current + 1) rest (omega arith))
        (ap (λ (pair : List (List ℕ) × ℕ). some (pair.0, pair.1, (lines_of rest).rest))
          (ground (arith, pushed-drop start current line (lines_of rest).complete)))
]

-- What follows the last line has no complete line.
lines_of-rest :
    (bs : List ℕ)
    → lines_of (lines_of bs).rest ≡ record { complete = []; rest = (lines_of bs).rest }
unfolding lines_of
lines_of-rest [] = refl
lines_of-rest (b ∷ bs) = elim (Bool-cases (nat_eq b line_feed)) [
  | inl e ↦ rw e (lines_of-rest bs)
  | inr n ↦ rw n (go n (lines_of bs).complete (lines_of bs).rest (lines_of-rest bs))
]
  where
    go :
        nat_eq b line_feed ≡ false
        → (ls : List (List ℕ)) (r : List ℕ) → lines_of r ≡ record { complete = []; rest = r }
        → lines_of (onto b ls r).rest ≡ record { complete = []; rest = (onto b ls r).rest }
    go n [] r h = ap (add_byte b) h ∙ rw n refl
    go n (l ∷ ls) r h = h

abbrev offset_at : ℕ → ℕ → List ℕ → LineOffset
offset_at start current held = record {
  start_offset = start;
  current_offset = current;
  buffer = some held;
}

transform_lem :
    (start current : ℕ) (held chunk : List ℕ)
    → transform chunk (offset_at start current held)
      ≡ some (
        drop (start - current) (lines_of (held ++ chunk)).complete,
        offset_at start
            (current + length (lines_of (held ++ chunk)).complete)
            (lines_of (held ++ chunk)).rest,
      )
unfolding transform
transform_lem start current held chunk =
    rw (take_lines_lem (suc (length (held ++ chunk))) start current (held ++ chunk) (omega arith))
      refl

run_from :
    (chunks : List (List ℕ)) (start current : ℕ) (held : List ℕ)
    → lines_of held ≡ record { complete = []; rest = held }
    → (offset : ℕ) × (run chunks (offset_at start current held)
        ≡ some (
          drop (start - current) (lines_of (held ++ concat chunks)).complete,
          offset_at start offset (lines_of (held ++ concat chunks)).rest,
        ))
unfolding run
run_from [] start current held h =
    (current, rw (append_nil held, h, drop_nil {0} {A = List ℕ} (start - current)) refl)
run_from (chunk ∷ chunks) start current held h =
    let l = lines_of (held ++ chunk) in
    let (offset, later) =
      run_from chunks start (current + length l.complete) l.rest (lines_of-rest (held ++ chunk)) in
    let e : start - (current + length l.complete) ≡ start - current - length l.complete =
      omega arith in
    (
      offset,
      rw
          (
            transform_lem start current held chunk,
            later,
            sym (append_assoc held chunk (concat chunks)),
            lines_of-append (held ++ chunk) (concat chunks),
            drop-append (start - current) l.complete (lines_of (l.rest ++ concat chunks)).complete,
            e,
          )
          refl,
    )

sub_zero : (n : ℕ) → n - 0 ≡ n
sub_zero n = omega arith

-- Whatever chunks a stream comes in, the transform returns, pushes its complete lines, each by
-- itself, from the start offset on, and at the end pushes what follows the last line feed, also where that
-- is before the start offset.
pub run-drops_lines :
    (start : ℕ) (chunk : List ℕ) (chunks : List (List ℕ))
    → (final : LineOffset) × (run
          (chunk ∷ chunks)
          (record { start_offset = start; current_offset = 0; buffer = none })
        ≡ some (drop start (lines_of (concat (chunk ∷ chunks))).complete, final))
      × (flush final ≡ (lines_of (concat (chunk ∷ chunks))).rest ∷ [])
unfolding run transform lines_of
run-drops_lines start chunk chunks =
    let (offset, h) = run_from (chunk ∷ chunks) start 0 [] refl in
    (
      offset_at start offset (lines_of (concat (chunk ∷ chunks))).rest,
      h
          ∙ ap
              (λ k. some (
                drop k (lines_of (concat (chunk ∷ chunks))).complete,
                offset_at start offset (lines_of (concat (chunk ∷ chunks))).rest,
              ))
              (sub_zero start),
      refl,
    )
