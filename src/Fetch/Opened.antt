-- ===== src/Fetch/Opened.antt =====
-- client-lib/src/util/SchemaUtil.ts: which streams streamRecords opens.
use datapm.Common.{
  ℕ, zero, suc, String, true, false, Option, none, some, List, [], ◌∷◌, ◌++◌, ◌≡◌, refl, sym, ap,
  subst, ◌∙◌, Result, ok, err, if◌then◌else◌, All,
}
use datapm.Transforms.Chunks.{drop}
use datapm.PackageFile.{UpdateMethod, batch_full_set, append_only_log, continuous}
use datapm.Fetch.State.{SinkState, is_full_set}
use datapm.Fetch.Available.{StreamSummary, StreamSetPreview}
use datapm.Fetch.Streams.{
  same_method, is_supported, Reading, Move, ended, failed, called_again, reads, nth_summary,
  is_continuous, chosen, state_for, with_method, opened, unsupported, open_current,
  move_to_next_stream, moves,
}

-- A stream that is not continuous, and whose update method the sink supports.
abbrev pub IsBatch : List UpdateMethod → StreamSummary → Type 0
IsBatch supported summary =
    (same_method continuous summary.update_method ≡ false)
    × (is_supported summary.update_method supported ≡ true)

-- The states with which the streams are opened: none from the first full set on.
unfoldable pub all_read :
    {S : Type 0} → String → Option SinkState → List (StreamSummary × S) → List (Move S)
all_read slug state [] = []
all_read slug state ((summary, stream) ∷ streams) =
    let kept = if is_full_set summary.update_method then none else state in
    reads summary (state_for slug summary.name kept) stream ∷ all_read slug kept streams

abbrev pub summaries_of : {S : Type 0} → List (StreamSummary × S) → List StreamSummary
summaries_of [] = []
summaries_of ((summary, stream) ∷ streams) = summary ∷ summaries_of streams

abbrev pub outcomes_of : {S : Type 0} → List (StreamSummary × S) → List (Result S)
outcomes_of [] = []
outcomes_of ((summary, stream) ∷ streams) = ok stream ∷ outcomes_of streams

nth_summary-drop :
    (n : ℕ) (xs : List StreamSummary) (x : StreamSummary) (rest : List StreamSummary)
    → drop n xs ≡ x ∷ rest
    → (nth_summary n xs ≡ some x) × (drop (suc n) xs ≡ rest)
nth_summary-drop zero [] x rest h = cc
nth_summary-drop zero (y ∷ xs) x rest h = (cc, cc)
nth_summary-drop (suc n) [] x rest h = cc
nth_summary-drop (suc n) (y ∷ xs) x rest h = nth_summary-drop n xs x rest h

nth_summary-none : (n : ℕ) (xs : List StreamSummary) → drop n xs ≡ [] → nth_summary n xs ≡ none
nth_summary-none zero [] h = refl
nth_summary-none zero (y ∷ xs) h = cc
nth_summary-none (suc n) [] h = refl
nth_summary-none (suc n) (y ∷ xs) h = nth_summary-none n xs h

abbrev after : StreamSummary → Reading → Reading
after summary s = record s {
  current = some summary;
  index = suc s.index;
  update_method = summary.update_method;
  sink_state = if is_full_set summary.update_method then none else s.sink_state;
}

with_method-supported :
    (supported : List UpdateMethod) (method : UpdateMethod) (s : Reading)
    → is_supported method supported ≡ true
    → with_method supported method s ≡ record s {
      update_method = method;
      sink_state = if is_full_set method then none else s.sink_state;
    }
with_method-supported supported batch_full_set s h = refl
with_method-supported supported append_only_log s h = rw h refl
with_method-supported supported continuous s h = rw h refl

module _ {S : Type 0} (preview : StreamSetPreview) (supported : List UpdateMethod) where
  open_current-supported :
      (stream : S) (summary : StreamSummary) (s : Reading)
      → is_supported summary.update_method supported ≡ true
      → open_current preview supported (ok stream) (some summary) s ≡ (
        reads summary
            (state_for preview.slug summary.name
              (if is_full_set summary.update_method then none else s.sink_state))
            stream,
        record s {
          update_method = summary.update_method;
          sink_state = if is_full_set summary.update_method then none else s.sink_state;
        },
      )
  open_current-supported stream summary s h =
      ap
        (λ b.
          if b
          then opened preview supported summary (ok stream)
              (with_method supported summary.update_method s)
          else (failed (unsupported summary.update_method supported), s))
        h
      ∙ ap (opened preview supported summary (ok stream))
          (with_method-supported supported summary.update_method s h)

  call_reads :
      (stream : S) (summary : StreamSummary) (summaries : List StreamSummary) (s : Reading)
      → preview.stream_summaries ≡ some summaries
      → is_continuous s.current ≡ false
      → nth_summary s.index summaries ≡ some summary
      → is_supported summary.update_method supported ≡ true
      → move_to_next_stream preview supported (ok stream) s ≡ (
        reads summary
            (state_for preview.slug summary.name
              (if is_full_set summary.update_method then none else s.sink_state))
            stream,
        after summary s,
      )
  unfolding move_to_next_stream
  call_reads stream summary summaries s h c finds supports =
      ap (λ next. open_current preview supported (ok stream) next.current next)
        (ap (λ found. if is_continuous s.current then s else chosen found s) h
          ∙ ap (λ b. if b then s else chosen (some summaries) s) c
          ∙ ap (λ found. record s { current = found; index = suc s.index }) finds)
      ∙ open_current-supported stream summary
          (record s { current = some summary; index = suc s.index }) supports

  moves_from :
      (streams : List (StreamSummary × S)) (summaries : List StreamSummary) (last : Result S)
      (s : Reading)
      → preview.stream_summaries ≡ some summaries
      → drop s.index summaries ≡ summaries_of streams
      → All (IsBatch supported) (summaries_of streams)
      → is_continuous s.current ≡ false
      → moves preview supported (outcomes_of streams ++ (last ∷ [])) s
        ≡ all_read preview.slug s.sink_state streams ++ (ended ∷ [])
  unfolding moves all_read
  moves_from [] summaries last s h d b c =
      unfold move_to_next_stream in rw (h, c, nth_summary-none s.index summaries d) refl
  moves_from ((summary, stream) ∷ streams) summaries last s h d ((n, supports), b) c =
      let (finds, later) = nth_summary-drop s.index summaries summary (summaries_of streams) d in
      rw (call_reads stream summary summaries s h c finds supports) (
        ap
          (λ xs.
            reads summary
              (state_for preview.slug summary.name
                (if is_full_set summary.update_method then none else s.sink_state))
              stream
            ∷ xs)
          (moves_from streams summaries last (after summary s) h later b n))

  -- When every stream of a preview with summaries opens, is supported by the sink and is not
  -- continuous, the calls of moveToNextStream read all streams, each once and in order, and the next
  -- call ends; a stream gets its state from the sink, unless it or one before it is a full set.
  pub moves-all_read :
      (streams : List (StreamSummary × S)) (last : Result S) (state : Option SinkState)
      (upcoming : List StreamSummary)
      → preview.stream_summaries ≡ some (summaries_of streams)
      → All (IsBatch supported) (summaries_of streams)
      → moves preview supported (outcomes_of streams ++ (last ∷ [])) (record {
        index = 0;
        update_method = batch_full_set;
        sink_state = state;
        current = none;
        upcoming = upcoming;
      })
        ≡ all_read preview.slug state streams ++ (ended ∷ [])
  moves-all_read streams last state upcoming h b =
      moves_from streams (summaries_of streams) last _ h refl b refl

-- The stream is read again, or the call is made again.
abbrev pub IsAgain : {S : Type 0} → StreamSummary → Move S → Type 0
IsAgain summary ended = ⊥
IsAgain summary (failed e) = ⊥
IsAgain summary called_again = Unit
IsAgain summary (reads other state stream) = other ≡ summary

module _ {S : Type 0} (preview : StreamSetPreview) (supported : List UpdateMethod) where
  open_current-IsAgain :
      (outcome : Result S) (summary : StreamSummary) (s : Reading)
      → same_method continuous summary.update_method ≡ true
      → is_supported summary.update_method supported ≡ true
      → s.current ≡ some summary
      → IsAgain summary (open_current preview supported outcome (some summary) s).0
        × ((open_current preview supported outcome (some summary) s).1.current ≡ some summary)
  open_current-IsAgain (ok stream) summary s c h e = rw h (refl, e)
  open_current-IsAgain (err thrown_error) summary s c h e = rw (h, c) (tt, e)

  call_again :
      (outcome : Result S) (summary : StreamSummary) (s : Reading)
      → same_method continuous summary.update_method ≡ true
      → s.current ≡ some summary
      → move_to_next_stream preview supported outcome s
        ≡ open_current preview supported outcome (some summary) s
  unfolding move_to_next_stream
  call_again outcome summary s c e =
      ap (λ next. open_current preview supported outcome next.current next)
        (ap (λ b. if b then s else chosen preview.stream_summaries s) (ap is_continuous e ∙ c))
      ∙ ap (λ current. open_current preview supported outcome current s) e

  -- Once a continuous stream that the sink supports is the current one, every call reads it again or
  -- has itself called again, however the stream opens or fails to: no other stream of the preview is
  -- read any more, and the stream of records does not end.
  pub moves-IsAgain :
      (outcomes : List (Result S)) (summary : StreamSummary) (s : Reading)
      → same_method continuous summary.update_method ≡ true
      → is_supported summary.update_method supported ≡ true
      → s.current ≡ some summary
      → All (IsAgain summary) (moves preview supported outcomes s)
  unfolding moves
  moves-IsAgain [] summary s c h e = tt
  moves-IsAgain (outcome ∷ outcomes) summary s c h e =
      let again = open_current-IsAgain outcome summary s c h e in
      let call = call_again outcome summary s c e in
      (
        subst (λ r. IsAgain summary r.0) (sym call) again.0,
        moves-IsAgain outcomes summary _ c h (ap (λ r. r.1.current) call ∙ again.1),
      )
