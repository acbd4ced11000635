-- ===== src/Transforms/LineOffset.antt =====
-- client-lib/src/transforms/LineCountOffsetTransform.ts: the lines from an offset on. A chunk is the list
-- of its bytes (`Buffer.from` gives those of a text).
use datapm.Common.{
  ℕ, zero, suc, ◌+◌, Option, none, some, List, [], ◌∷◌, ◌++◌, length, leb, nat_eq, if◌then◌else◌,
}

pub record LineOffset : Type 0 where
  pub start_offset : ℕ
  pub current_offset : ℕ
  -- Not set before the first chunk.
  pub buffer : Option (List ℕ)

abbrev pub line_feed : ℕ
line_feed = 10

module _ {ℓ κ} {A : Type ℓ} {B : Type κ} where
  infixl 5 ◌>>=◌
  abbrev ◌>>=◌ : Option A → (A → Option B) → Option B
  none >>= rest = none
  some a >>= rest = rest a

abbrev pub with_byte : ℕ → Option (List ℕ × List ℕ) → Option (List ℕ × List ℕ)
with_byte b none = none
with_byte b (some (line, rest)) = some (b ∷ line, rest)

-- The buffer up to its first line feed and the buffer after it, `none` where `indexOf` is -1.
unfoldable pub first_line : List ℕ → Option (List ℕ × List ℕ)
first_line [] = none
first_line (b ∷ bs) =
    let later = first_line bs in if nat_eq b line_feed then some (b ∷ [], bs) else with_byte b later

abbrev pub buffered : Option (List ℕ) → List ℕ
buffered none = []
buffered (some bytes) = bytes

-- What the loop of `_transform` pushes, and the offset and the buffer that it leaves. `none` is a loop
-- that has not ended after so many rounds.
unfoldable pub take_lines : ℕ → ℕ → ℕ → List ℕ → Option (List (List ℕ) × ℕ × List ℕ)
unfolding first_line
take_lines zero start current buffer = none
take_lines (suc rounds) start current buffer = elim (first_line buffer) [
  | none ↦ some ([], current, buffer)
  | some (line, rest) ↦ do
    let pushed = if leb start current then line ∷ [] else []
    (lines, offset, left) ← take_lines rounds start (current + 1) rest
    some (pushed ++ lines, offset, left)
]

-- A round removes a byte at least.
abbrev pub rounds_for : List ℕ → ℕ
rounds_for buffer = suc (length buffer)

unfoldable pub transform : List ℕ → LineOffset → Option (List (List ℕ) × LineOffset)
unfolding take_lines
transform chunk s = do
  let buffer = buffered s.buffer ++ chunk
  (lines, offset, left) ← take_lines (rounds_for buffer) s.start_offset s.current_offset buffer
  some (lines, record s { current_offset = offset; buffer = some left })

-- `_flush`: the buffer, if there is one.
abbrev pub flush : LineOffset → List (List ℕ)
flush s = elim (s.buffer) [ none ↦ [] | some bytes ↦ bytes ∷ [] ]

-- The chunks of a stream in order.
unfoldable pub run : List (List ℕ) → LineOffset → Option (List (List ℕ) × LineOffset)
unfolding transform
run [] s = some ([], s)
run (chunk ∷ chunks) s = do
  (lines, next) ← transform chunk s
  (more, final) ← run chunks next
  some (lines ++ more, final)
