-- ===== src/Fetch/Streams.antt =====
-- client-lib/src/util/SchemaUtil.ts: `moveToNextStream` of streamRecords, a call of which opens the next
-- stream of a stream set, or the same continuous one again. How a stream opens is given to each call,
-- since it is up to the source and differs from call to call; waiting is left out.
use datapm.Common.{
  ℕ, zero, suc, String, Bool, true, false, ◌&◌, Option, none, some, List, [], ◌∷◌, Error, Result,
  ok, err, thrown, if◌then◌else◌, any,
}
use datapm.Fetch.Tables.{member_of}
use datapm.PackageFile.{UpdateMethod, batch_full_set, append_only_log, continuous}
use datapm.Fetch.State.{StreamState, SinkState, is_full_set, stream_state_of, StreamRecord}
use datapm.Fetch.Available.{StreamSummary, StreamSetPreview}
use datapm.Fetch.Resume.{RecordContext}

abbrev pub text_of : UpdateMethod → String
text_of batch_full_set = "BATCH_FULL_SET"
text_of append_only_log = "APPEND_ONLY_LOG"
text_of continuous = "CONTINUOUS"

abbrev pub same_method : UpdateMethod → UpdateMethod → Bool
same_method batch_full_set m = is_full_set m
same_method append_only_log append_only_log = true
same_method append_only_log m = false
same_method continuous continuous = true
same_method continuous m = false

abbrev pub is_supported : UpdateMethod → List UpdateMethod → Bool
is_supported method methods = any (λ m. same_method m method) methods

-- `methods.join(",")`
abbrev pub join_methods : List UpdateMethod → String
join_methods [] = ""
join_methods (m ∷ []) = text_of m
join_methods (m ∷ n ∷ ms) = text_of m & "," & join_methods (n ∷ ms)

-- The variables of streamRecords; `upcoming` is what `moveToNextStream` of the preview will give.
pub record Reading : Type 0 where
  pub index : ℕ
  pub update_method : UpdateMethod
  pub sink_state : Option SinkState
  pub current : Option StreamSummary
  pub upcoming : List StreamSummary

-- What a call does: it ends the stream of records, throws, has itself called again, or reads a stream
-- that was opened with a state.
pub data Move (S : Type 0) : Type 0 where
  ended : Move S
  failed : Error → Move S
  called_again : Move S
  reads : StreamSummary → Option StreamState → S → Move S

abbrev pub nth_summary : ℕ → List StreamSummary → Option StreamSummary
nth_summary n [] = none
nth_summary zero (x ∷ xs) = some x
nth_summary (suc n) (x ∷ xs) = nth_summary n xs

abbrev pub pulled : List StreamSummary → Reading → Reading
pulled [] s = record s { current = none }
pulled (summary ∷ summaries) s = record s { current = some summary; upcoming = summaries }

abbrev pub is_continuous : Option StreamSummary → Bool
is_continuous none = false
is_continuous (some summary) = same_method continuous summary.update_method

abbrev pub chosen : Option (List StreamSummary) → Reading → Reading
chosen (some summaries) s = record s {
  current = nth_summary s.index summaries;
  index = suc s.index;
}
chosen none s = pulled s.upcoming s

-- The choice of the stream to read.
abbrev pub with_next : Option (List StreamSummary) → Reading → Reading
with_next summaries s = if is_continuous s.current then s else chosen summaries s

-- `sinkState?.streamSets[slug]?.streamStates[name]`
abbrev pub state_for : String → String → Option SinkState → Option StreamState
state_for slug name none = none
state_for slug name (some sink_state) = stream_state_of slug name sink_state

-- The update method that is used, and no state for a full set.
abbrev pub with_method : List UpdateMethod → UpdateMethod → Reading → Reading
with_method supported method s =
    let used =
      if is_full_set method
      then batch_full_set
      else if is_supported method supported
      then method
      else batch_full_set in
    record s { update_method = used; sink_state = if is_full_set used then none else s.sink_state }

abbrev pub unsupported : UpdateMethod → List UpdateMethod → Error
unsupported method supported = thrown (
    "Source update method: "
    & text_of method
    & " and sink only supports update methods "
    & join_methods supported
    & " Therefore there is no way to stream from this source to this sink")

module _ {S : Type 0} (preview : StreamSetPreview) (supported : List UpdateMethod) where
  abbrev pub opened : StreamSummary → Result S → Reading → Move S × Reading
  opened summary (ok stream) s =
      (reads summary (state_for preview.slug summary.name s.sink_state) stream, s)
  opened summary (err e) s =
      (if same_method continuous summary.update_method then called_again else failed e, s)

  abbrev pub open_current : Result S → Option StreamSummary → Reading → Move S × Reading
  open_current outcome none s = (ended, s)
  open_current outcome (some summary) s =
      if is_supported summary.update_method supported
      then opened summary outcome (with_method supported summary.update_method s)
      else (failed (unsupported summary.update_method supported), s)

  unfoldable pub move_to_next_stream : Result S → Reading → Move S × Reading
  unfolding member_of
  move_to_next_stream outcome s =
      let next = with_next preview.stream_summaries s in open_current outcome next.current next

  -- The calls, one after another.
  unfoldable pub moves : List (Result S) → Reading → List (Move S)
  unfolding move_to_next_stream
  moves [] s = []
  moves (outcome ∷ outcomes) s =
      (move_to_next_stream outcome s).0 ∷ moves outcomes (move_to_next_stream outcome s).1

-- `RecordStreamContextTransform`
abbrev pub with_stream_context :
    {R : Type 0} → StreamSetPreview → StreamSummary → List (RecordContext R) → List (StreamRecord R)
with_stream_context preview summary [] = []
with_stream_context preview summary (chunk ∷ chunks) =
    record {
      stream_set_slug = preview.slug;
      stream_slug = summary.name;
      schema_slug = chunk.schema_slug;
      offset = chunk.offset;
      rest = chunk.rest;
    }
    ∷ with_stream_context preview summary chunks
