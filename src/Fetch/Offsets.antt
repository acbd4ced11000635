-- ===== src/Fetch/Offsets.antt =====
-- client-lib/src/util/transforms/SinkStateWritable.ts: what the sink state holds of a stream, whatever
-- records of other streams come between.
use datapm.Common.{
  ℕ, String, Bool, true, false, ◌&&◌, ◌==◌, Option, none, some, List, [], ◌∷◌, ◌≡◌, refl, ap, ◌∙◌,
  inl, inr, if◌then◌else◌, eq_iff, eq_refl, Bool-cases,
}
use datapm.Fetch.Tables.{or_new, member_of-with_member_same, member_of-with_member_other}
use datapm.Fetch.State.{
  StreamState, SinkState, new_stream, StreamRecord, advanced, write_offset, write, write_all,
  stream_state_in, stream_state_of, stream_state_in_new,
}

-- The state of a stream alone, after one of its records.
abbrev pub advance_by :
    {R : Type 0} → StreamRecord R → Option ℕ → Option StreamState → Option StreamState
advance_by chunk none state = state
advance_by chunk (some offset) state =
    some (advanced chunk.schema_slug offset (or_new new_stream state))

if_same : {A : Type 0} (b : Bool) (a : A) → a ≡ (if b then a else a)
if_same true a = refl
if_same false a = refl

module _ {R : Type 0} (set stream : String) where
  abbrev pub is_of : StreamRecord R → Bool
  is_of chunk = (chunk.stream_set_slug == set) && (chunk.stream_slug == stream)

  -- The state of a stream alone, after its own records.
  unfoldable pub alone : List (Option (StreamRecord R)) → Option StreamState → Option StreamState
  alone [] state = state
  alone (none ∷ chunks) state = alone chunks state
  alone (some chunk ∷ chunks) state =
      alone chunks (if is_of chunk then advance_by chunk chunk.offset state else state)

  write_offset_of :
      (chunk : StreamRecord R) (offset : Option ℕ) (s : SinkState)
      → stream_state_of set stream (write_offset chunk offset s) ≡ (
          if is_of chunk
          then advance_by chunk offset (stream_state_of set stream s)
          else stream_state_of set stream s)
  write_offset_of chunk none s = if_same (is_of chunk) (stream_state_of set stream s)
  write_offset_of chunk (some offset) s = elim (Bool-cases (chunk.stream_set_slug == set)) [
    | inr n ↦
        rw n (ap (stream_state_in stream) (member_of-with_member_other _ set _ s.stream_sets n))
    | inl e ↦ elim (Bool-cases (chunk.stream_slug == stream)) [
      | inl f ↦
          rw ((eq_iff _ set).0 e, (eq_iff _ stream).0 f)
            (rw (eq_refl set, eq_refl stream, member_of-with_member_same, stream_state_in_new)
              (member_of-with_member_same stream _ _))
      | inr n ↦ rw ((eq_iff _ set).0 e) (
          rw (eq_refl set, n, member_of-with_member_same)
            (member_of-with_member_other _ stream _ _ n ∙ stream_state_in_new stream _))
    ]
  ]

  write_of :
      (chunk : StreamRecord R) (s : SinkState)
      → stream_state_of set stream (write (some chunk) s) ≡ (
          if is_of chunk
          then advance_by chunk chunk.offset (stream_state_of set stream s)
          else stream_state_of set stream s)
  unfolding write
  write_of chunk s = write_offset_of chunk chunk.offset s

  -- After any writes, the state of a stream is what it would be if only its own records had been
  -- written.
  pub write_all-alone :
      (chunks : List (Option (StreamRecord R))) (s : SinkState)
      → stream_state_of set stream (write_all chunks s)
        ≡ alone chunks (stream_state_of set stream s)
  unfolding write_all alone
  write_all-alone [] s = refl
  write_all-alone (none ∷ chunks) s = unfold write in write_all-alone chunks s
  write_all-alone (some chunk ∷ chunks) s =
      write_all-alone chunks (write (some chunk) s) ∙ ap (alone chunks) (write_of chunk s)
