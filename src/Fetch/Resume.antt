-- ===== src/Fetch/Resume.antt =====
-- client-lib/src/util/SchemaUtil.ts: the stream `streamOffSetTransform`, which leaves out the records that
-- the sink has. The state of the stream that it reads is the object that SinkStateWritable changes
-- while the records are written, so that arrivals and writes are events on one state.
use datapm.Common.{
  ℕ, zero, suc, ◌≤◌, String, Bool, true, Option, none, some, List, [], ◌∷◌, ◌++◌, if◌then◌else◌,
  ltb,
}

-- `RecordContext` of lib/src/PackageUtil.ts
pub record RecordContext (R : Type 0) : Type 0 where
  pub schema_slug : String
  pub offset : Option ℕ
  pub rest : R

-- `chunk.offset == null || streamState.streamOffset == null`, and else `>`
abbrev pub is_after : Option ℕ → Option ℕ → Bool
is_after stream_offset none = true
is_after none (some offset) = true
is_after (some stream_offset) (some offset) = ltb stream_offset offset

module _ {R : Type 0} where
  unfoldable pub chunks_after : Option ℕ → List (RecordContext R) → List (RecordContext R)
  chunks_after stream_offset [] = []
  chunks_after stream_offset (chunk ∷ chunks) =
      let rest = chunks_after stream_offset chunks in
      if is_after stream_offset chunk.offset then chunk ∷ rest else rest

-- The offset in the shared state, and the records that were passed on.
pub record Resuming (R : Type 0) : Type 0 where
  pub stream_offset : Option ℕ
  pub sent : List (RecordContext R)

-- Records arrive at the transform, or the one at a position among those passed on is written.
pub data Happening (R : Type 0) : Type 0 where
  arrive : List (RecordContext R) → Happening R
  write_sent : ℕ → Happening R

abbrev pub AtLeast : ℕ → Option ℕ → Type 0
AtLeast low none = Unit
AtLeast low (some offset) = low ≤ offset

abbrev pub next_low : ℕ → Option ℕ → ℕ
next_low low none = low
next_low low (some offset) = suc offset

module _ {R : Type 0} where
  abbrev pub offset_after : Option (RecordContext R) → Option ℕ → Option ℕ
  offset_after none stream_offset = stream_offset
  offset_after (some chunk) stream_offset = elim chunk.offset [
    | none ↦ stream_offset
    | some offset ↦ some offset
  ]

  abbrev pub nth : ℕ → List (RecordContext R) → Option (RecordContext R)
  nth n [] = none
  nth zero (x ∷ xs) = some x
  nth (suc n) (x ∷ xs) = nth n xs

  unfoldable pub happen : Happening R → Resuming R → Resuming R
  unfolding chunks_after
  happen (arrive chunks) s = record s { sent = s.sent ++ chunks_after s.stream_offset chunks }
  happen (write_sent n) s = record s { stream_offset = offset_after (nth n s.sent) s.stream_offset }

  unfoldable pub happen_all : List (Happening R) → Resuming R → Resuming R
  unfolding happen
  happen_all [] s = s
  happen_all (e ∷ es) s = happen_all es (happen e s)

  -- All records that arrive, in order.
  abbrev pub arrivals : List (Happening R) → List (RecordContext R)
  arrivals [] = []
  arrivals (arrive chunks ∷ es) = chunks ++ arrivals es
  arrivals (write_sent n ∷ es) = arrivals es

  -- The offsets that there are increase strictly, from a least one on.
  abbrev pub IsIncreasing : ℕ → List (RecordContext R) → Type 0
  IsIncreasing low [] = Unit
  IsIncreasing low (chunk ∷ chunks) =
      AtLeast low chunk.offset × IsIncreasing (next_low low chunk.offset) chunks
