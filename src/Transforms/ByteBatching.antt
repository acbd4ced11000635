-- ===== src/Transforms/ByteBatching.antt =====
-- client-lib/src/transforms/ByteBatchingTransform.ts: bytes are held back up to a size, and pushed up to
-- the last separator. The separator is one byte, as in each call; a chunk is the list of its bytes.
use datapm.Common.{
  ℕ, ◌+◌, Option, none, some, List, [], ◌∷◌, ◌++◌, length, leb, nat_eq, if◌then◌else◌,
}
use datapm.Transforms.Chunks.{concat}

pub record ByteBatching : Type 0 where
  pub buffers : List (List ℕ)
  pub max_size : ℕ
  pub buffer_size : ℕ
  pub separator : ℕ

-- The bytes before the last separator and those after it, `none` where `lastIndexOf` is -1.
unfoldable pub last_split : ℕ → List ℕ → Option (List ℕ × List ℕ)
last_split separator [] = none
last_split separator (b ∷ bs) = elim (last_split separator bs) [
  | some (before, after) ↦ some (b ∷ before, after)
  | none ↦ if nat_eq b separator then some ([], bs) else none
]

-- What a full buffer pushes and keeps: all of it if it ends with the separator; otherwise what is
-- before the separator and what is after it.
unfoldable pub emitted :
    List ℕ → Option (List ℕ × List ℕ) → ByteBatching → List (List ℕ) × ByteBatching
emitted bytes none s = ([], s)
emitted bytes (some (before, [])) s = (bytes ∷ [], record s { buffers = [] })
emitted bytes (some (before, b ∷ after)) s = (before ∷ [], record s { buffers = (b ∷ after) ∷ [] })

-- `_transform`: what is pushed, and the new state.
unfoldable pub transform : List ℕ → ByteBatching → List (List ℕ) × ByteBatching
unfolding last_split emitted
transform chunk s =
    let held = record s {
      buffers = s.buffers ++ (chunk ∷ []);
      buffer_size = s.buffer_size + length chunk;
    } in
    let bytes = concat held.buffers in
    if leb s.max_size held.buffer_size
    then emitted bytes (last_split s.separator bytes) held
    else ([], held)

-- `_flush`
unfoldable pub flush : ByteBatching → List (List ℕ)
flush s = elim (concat s.buffers) [ [] ↦ [] | b ∷ bs ↦ (b ∷ bs) ∷ [] ]

-- The chunks of a stream in order.
unfoldable pub run : List (List ℕ) → ByteBatching → List (List ℕ) × ByteBatching
unfolding transform
run [] s = ([], s)
run (chunk ∷ chunks) s =
    let (pushed, next) = transform chunk s in
    let (more, final) = run chunks next in (pushed ++ more, final)
