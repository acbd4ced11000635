-- ===== src/Transforms/Separated.antt =====
-- client-lib/src/transforms/ByteBatchingTransform.ts: which bytes are pushed.
use datapm.Common.{
  ℕ, ◌+◌, ◌≤◌, true, false, Option, none, some, List, [], ◌∷◌, ◌++◌, length, leb, nat_eq,
  nat_eq_refl, if◌then◌else◌, ◌≡◌, refl, sym, ap, ◌∙◌, ◌⊎◌, inl, inr, All, All-append, subst,
  Bool-cases, arith,
}
use datapm.Transforms.Chunks.{concat, append_assoc, append_nil, concat-append, length-append}
use datapm.Transforms.ByteBatching.{ByteBatching, last_split, emitted, transform, flush, run}

-- The stretches of a stream in order: each is pushed, with a separator after it that is lost or with none.
abbrev pub restored : List (List ℕ × List ℕ) → List ℕ
restored [] = []
restored ((pushed, lost) ∷ rest) = (pushed ++ lost) ++ restored rest

abbrev pub pushed_of : List (List ℕ × List ℕ) → List (List ℕ)
pushed_of [] = []
pushed_of ((pushed, lost) ∷ rest) = pushed ∷ pushed_of rest

-- Nothing is lost after a stretch, or one separator is.
abbrev pub IsLoss : ℕ → List ℕ × List ℕ → Type 0
IsLoss separator (pushed, lost) = (lost ≡ []) ⊎ (lost ≡ separator ∷ [])

leb_yes : (a b : ℕ) → a ≤ b → leb a b ≡ true
leb_yes a b h = ground arith

nat_eq-true : (a b : ℕ) → nat_eq a b ≡ true → a ≡ b
nat_eq-true a b h = ground arith

abbrev IsLastSplit : ℕ → List ℕ → Option (List ℕ × List ℕ) → Type 0
IsLastSplit separator bytes none = Unit
IsLastSplit separator bytes (some (before, after)) = bytes ≡ before ++ (separator ∷ after)

last_split-IsLastSplit :
    (separator : ℕ) (bytes : List ℕ) → IsLastSplit separator bytes (last_split separator bytes)
unfolding last_split
last_split-IsLastSplit separator [] = tt
last_split-IsLastSplit separator (b ∷ bs) =
    step (last_split separator bs) (last_split-IsLastSplit separator bs)
      (Bool-cases (nat_eq b separator))
  where
    step :
        (found : Option (List ℕ × List ℕ))
        → IsLastSplit separator bs found
        → (nat_eq b separator ≡ true) ⊎ (nat_eq b separator ≡ false)
        → IsLastSplit separator (b ∷ bs) (elim found [
          | some (before, after) ↦ some (b ∷ before, after)
          | none ↦ if nat_eq b separator then some ([], bs) else none
        ])
    step (some (before, after)) h how = ap (λ xs. b ∷ xs) h
    step none h (inl e) = rw e (ap (λ x. x ∷ bs) (nat_eq-true b separator e))
    step none h (inr n) = rw n tt

-- The bytes come out in stretches, with what is held then after them.
abbrev Stretched : ℕ → List ℕ → List (List ℕ) → List ℕ → Type 0
Stretched separator bytes outs held =
    (stretches : List (List ℕ × List ℕ)) × (outs ≡ pushed_of stretches)
    × All (IsLoss separator) stretches
    × (bytes ≡ restored stretches ++ held)

emitted-Stretched :
    (bytes : List ℕ) (found : Option (List ℕ × List ℕ)) (s : ByteBatching)
    → IsLastSplit s.separator bytes found
    → concat s.buffers ≡ bytes
    → let (outs, next) = emitted bytes found s in
      Stretched s.separator bytes outs (concat next.buffers)
      × (next.separator ≡ s.separator)
      × (next.buffer_size ≡ s.buffer_size)
unfolding emitted
emitted-Stretched bytes none s h e = (([], refl, tt, sym e), refl, refl)
emitted-Stretched bytes (some (before, [])) s h e =
    (((bytes, []) ∷ [], refl, (inl refl, tt), simp append_nil refl), refl, refl)
emitted-Stretched bytes (some (before, b ∷ after)) s h e = (
  ((before, s.separator ∷ []) ∷ [], refl, (inr refl, tt), simp (append_nil, append_assoc) h),
  refl,
  refl,
)

transform-Stretched :
    (chunk : List ℕ) (s : ByteBatching)
    → let (outs, next) = transform chunk s in
      Stretched s.separator (concat s.buffers ++ chunk) outs (concat next.buffers)
      × (next.separator ≡ s.separator)
      × (next.buffer_size ≡ s.buffer_size + length chunk)
unfolding transform
transform-Stretched chunk s =
    let held = record s {
      buffers = s.buffers ++ (chunk ∷ []);
      buffer_size = s.buffer_size + length chunk;
    } in
    let e : concat (s.buffers ++ (chunk ∷ [])) ≡ concat s.buffers ++ chunk =
      concat-append s.buffers (chunk ∷ []) ∙ ap (λ xs. concat s.buffers ++ xs) (append_nil chunk) in
    let split = last_split-IsLastSplit s.separator (concat held.buffers) in
    elim (Bool-cases (leb s.max_size (s.buffer_size + length chunk))) [
      | inl full ↦
          rw (full, sym e)
            (emitted-Stretched (concat held.buffers) (last_split s.separator (concat held.buffers))
              held split refl)
      | inr more ↦ rw more (([], refl, tt, sym e), refl, refl)
    ]

pushed_of-append :
    (xs ys : List (List ℕ × List ℕ)) → pushed_of (xs ++ ys) ≡ pushed_of xs ++ pushed_of ys
pushed_of-append [] ys = refl
pushed_of-append ((pushed, lost) ∷ xs) ys = ap (λ ps. pushed ∷ ps) (pushed_of-append xs ys)

restored-append :
    (xs ys : List (List ℕ × List ℕ)) → restored (xs ++ ys) ≡ restored xs ++ restored ys
restored-append [] ys = refl
restored-append ((pushed, lost) ∷ xs) ys =
    rw (restored-append xs ys, append_assoc (pushed ++ lost) (restored xs) (restored ys)) refl

Stretched-append :
    (separator : ℕ) (bytes more : List ℕ) (outs others : List (List ℕ)) (held final : List ℕ)
    → Stretched separator bytes outs held
    → Stretched separator (held ++ more) others final
    → Stretched separator (bytes ++ more) (outs ++ others) final
Stretched-append separator bytes more outs others held final (xs, h, l, e) (ys, k, m, f) = (
  xs ++ ys,
  rw (pushed_of-append xs ys, h, k) refl,
  All-append (IsLoss separator) xs ys l m,
  rw
      (
        e,
        append_assoc (restored xs) held more,
        f,
        restored-append xs ys,
        append_assoc (restored xs) (restored ys) final,
      )
      refl,
)

run-Stretched :
    (chunks : List (List ℕ)) (s : ByteBatching)
    → let (outs, final) = run chunks s in
      Stretched s.separator (concat s.buffers ++ concat chunks) outs (concat final.buffers)
      × (final.buffer_size ≡ s.buffer_size + length (concat chunks))
unfolding run
run-Stretched [] s = (([], refl, tt, append_nil (concat s.buffers)), omega arith)
run-Stretched (chunk ∷ chunks) s =
    let (now, same, counted) = transform-Stretched chunk s in
    let next = (transform chunk s).1 in
    let (later, all) = run-Stretched chunks next in
    let both = length-append chunk (concat chunks) in
    (
      subst
          (λ bytes.
            Stretched s.separator bytes (run (chunk ∷ chunks) s).0
              (concat (run chunks next).1.buffers))
          (append_assoc (concat s.buffers) chunk (concat chunks))
          (Stretched-append s.separator (concat s.buffers ++ chunk) (concat chunks)
            (transform chunk s).0 (run chunks next).0 (concat next.buffers)
            (concat (run chunks next).1.buffers) now
            (subst
              (λ c.
                Stretched c (concat next.buffers ++ concat chunks) (run chunks next).0
                  (concat (run chunks next).1.buffers))
              same later)),
      rw (all, counted, both) (omega arith),
    )

flush-Stretched :
    (separator : ℕ) (s : ByteBatching) → Stretched separator (concat s.buffers ++ []) (flush s) []
unfolding flush
flush-Stretched separator s = go (concat s.buffers)
  where
    go :
        (bytes : List ℕ)
        → Stretched separator (bytes ++ []) (elim bytes [ [] ↦ [] | b ∷ bs ↦ (b ∷ bs) ∷ [] ]) []
    go [] = ([], refl, tt, refl)
    go (b ∷ bs) = ((b ∷ bs, []) ∷ [], refl, (inl refl, tt), simp append_nil refl)

-- Up to the end of the stream, the bytes that come are those that are pushed, in their order, with one
-- separator lost at most after each stretch that is pushed. The size that is compared with the
-- maximum counts all the bytes that have come, also those that are pushed.
pub run-keeps_bytes :
    (separator max : ℕ) (chunks : List (List ℕ))
    → let start : ByteBatching = record {
      buffers = [];
      max_size = max;
      buffer_size = 0;
      separator = separator;
    } in
      let (outs, final) = run chunks start in
      (stretches : List (List ℕ × List ℕ)) × (outs ++ flush final ≡ pushed_of stretches)
      × All (IsLoss separator) stretches
      × (concat chunks ≡ restored stretches)
      × (final.buffer_size ≡ length (concat chunks))
unfolding flush
run-keeps_bytes separator max chunks =
    let start : ByteBatching = record {
      buffers = [];
      max_size = max;
      buffer_size = 0;
      separator = separator;
    } in
    let (stretched, counted) = run-Stretched chunks start in
    let (outs, final) = run chunks start in
    let (stretches, h, l, e) =
      Stretched-append separator (concat chunks) [] outs (flush final) (concat final.buffers) []
        stretched (flush-Stretched separator final) in
    (
      stretches,
      h,
      l,
      sym (append_nil (concat chunks)) ∙ e ∙ append_nil (restored stretches),
      counted ∙ omega arith,
    )

last_split-found :
    (separator : ℕ) (before after : List ℕ)
    → last_split separator after ≡ none
    → last_split separator (before ++ (separator ∷ after)) ≡ some (before, after)
unfolding last_split
last_split-found separator [] after h = rw (h, nat_eq_refl separator) refl
last_split-found separator (b ∷ before) after h =
    rw (last_split-found separator before after h, last_split) refl

-- Where a chunk fills the buffer and bytes follow the last separator, what is before that
-- separator is pushed and what is after it is held: the separator itself is lost.
pub transform-loses :
    (chunk before after : List ℕ) (b : ℕ) (s : ByteBatching)
    → s.max_size ≤ s.buffer_size + length chunk
    → concat s.buffers ++ chunk ≡ before ++ (s.separator ∷ b ∷ after)
    → last_split s.separator (b ∷ after) ≡ none
    → let (outs, next) = transform chunk s in
      (outs ≡ before ∷ []) × (next.buffers ≡ (b ∷ after) ∷ [])
unfolding transform emitted
transform-loses chunk before after b s full bytes last =
    let e : concat (s.buffers ++ (chunk ∷ [])) ≡ before ++ (s.separator ∷ b ∷ after) =
      concat-append s.buffers (chunk ∷ [])
      ∙ ap (λ xs. concat s.buffers ++ xs) (append_nil chunk)
      ∙ bytes in
    rw
      (
        leb_yes s.max_size (s.buffer_size + length chunk) full,
        e,
        last_split-found s.separator before (b ∷ after) last,
      )
      (refl, refl)
