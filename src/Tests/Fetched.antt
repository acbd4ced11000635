-- ===== src/Tests/Fetched.antt =====
-- The state of a sink, the records of each schema and the streams of a source, at concrete inputs.
use datapm.Common.{
  ℕ, String, true, false, Option, none, some, List, [], ◌∷◌, ◌≡◌, refl, ok, err, type_error, All,
  arith,
}
use datapm.Tests.Packages.{distinct}
use datapm.Fetch.Tables.{member_of, with_member, IsTable}
use datapm.PackageFile.{UpdateMethod, append_only_log, continuous, batch_full_set}
use datapm.Fetch.State.{SinkState, StreamRecord, advanced, write_all, stream_state_of}
use datapm.Fetch.Offsets.{alone, write_all-alone}
use datapm.Fetch.Available.{
  StreamSummary, StreamSetPreview, new_records_available, final_sink_state,
}
use datapm.Fetch.Committed.{new_records_available-committed, new_records_available-unchanged}
use datapm.Fetch.Switch.{write_calls}
use datapm.Fetch.Switched.{of_schema, received_of, write_calls-of_schema}
use datapm.Fetch.Resume.{RecordContext, arrive, write_sent, happen_all, chunks_after}
use datapm.Fetch.Resumed.{happen_all-resumes}
use datapm.Fetch.Streams.{ended, reads, Reading, moves}
use datapm.Fetch.Opened.{IsAgain, all_read, moves-all_read, moves-IsAgain}

abbrev empty_state : SinkState
empty_state = record { package_version = "1.0.0"; timestamp = 0; stream_sets = [] }

abbrev row : String → String → ℕ → StreamRecord ℕ
row stream schema n = record {
  stream_set_slug = "files";
  stream_slug = stream;
  schema_slug = schema;
  offset = some n;
  rest = n;
}

abbrev rows : List (StreamRecord ℕ)
rows = row "a" "people" 0 ∷ row "b" "places" 4 ∷ row "a" "people" 7 ∷ []

abbrev written : List (Option (StreamRecord ℕ))
written =
    some (row "a" "people" 0) ∷ none ∷ some (row "b" "places" 4) ∷ some (row "a" "people" 7) ∷ []

-- The records of stream b do not show in the state of stream a.
write_all-alone_example :
    stream_state_of "files" "a" (write_all written empty_state)
    ≡ some (record {
      update_hash = none;
      schema_states = ("people", record { last_offset = some 7 }) ∷ [];
      stream_offset = some 7;
    })
unfolding alone advanced with_member member_of
write_all-alone_example = write_all-alone "files" "a" written empty_state

abbrev file : String → UpdateMethod → Option String → StreamSummary
file name method hash = record { name = name; update_method = method; update_hash = hash }

abbrev two_files : List StreamSummary
two_files = file "a" append_only_log (some "x1") ∷ file "b" append_only_log (some "y1") ∷ []

abbrev files : Option (List StreamSummary) → StreamSetPreview
files summaries = record { slug = "files"; update_hash = some "h"; stream_summaries = summaries }

new_records_available-committed_example :
    (new_records_available
      (files (some two_files))
      (some (final_sink_state "1.0.1" (files (some two_files)) false empty_state))).0
    ≡ false
new_records_available-committed_example =
    new_records_available-committed "1.0.1" (files (some two_files)) two_files false empty_state
      refl ((distinct "a" "b" refl, tt), (tt, tt))

new_records_available-unchanged_example :
    (new_records_available
      (files none)
      (some (final_sink_state "1.0.1" (files none) false (write_all written empty_state)))).0
    ≡ (new_records_available (files none) (some empty_state)).0
new_records_available-unchanged_example =
    new_records_available-unchanged "1.0.1" (files none) false written empty_state refl

write_calls-of_schema_example :
    ((write_calls
        (λ title method replace. ok title)
        (some "places" ∷ some "people" ∷ [])
        true
        ((append_only_log, rows) ∷ (append_only_log, row "a" "people" 9 ∷ []) ∷ [])
        []).0
      ≡ ok tt)
    × IsTable
        (write_calls
          (λ title method replace. ok title)
          (some "places" ∷ some "people" ∷ [])
          true
          ((append_only_log, rows) ∷ (append_only_log, row "a" "people" 9 ∷ []) ∷ [])
          []).1
    × (received_of "people"
          (write_calls
            (λ title method replace. ok title)
            (some "places" ∷ some "people" ∷ [])
            true
            ((append_only_log, rows) ∷ (append_only_log, row "a" "people" 9 ∷ []) ∷ [])
            []).1
        ≡ row "a" "people" 0 ∷ row "a" "people" 7 ∷ row "a" "people" 9 ∷ [])
unfolding of_schema
write_calls-of_schema_example =
    write_calls-of_schema (λ title method replace. ok title) (some "places" ∷ some "people" ∷ [])
      true (λ title method replace. (title, refl))
      ((append_only_log, rows) ∷ (append_only_log, row "a" "people" 9 ∷ []) ∷ []) "people"
      (refl, (refl, (refl, (refl, tt))))

abbrev line : ℕ → RecordContext ℕ
line n = record { schema_slug = "people"; offset = some n; rest = n }

-- The sink writes line 6 before line 9 arrives.
happen_all-resumes_example :
    (happen_all
      (arrive (line 4 ∷ line 5 ∷ line 6 ∷ []) ∷ write_sent 0 ∷ arrive (line 9 ∷ []) ∷ [])
      (record { stream_offset = some 5; sent = [] })).sent
    ≡ line 6 ∷ line 9 ∷ []
unfolding chunks_after
happen_all-resumes_example =
    happen_all-resumes 5
      (arrive (line 4 ∷ line 5 ∷ line 6 ∷ []) ∷ write_sent 0 ∷ arrive (line 9 ∷ []) ∷ [])
      (omega arith, (omega arith, (omega arith, (omega arith, tt))))

abbrev at_start : Reading
at_start = record {
  index = 0;
  update_method = batch_full_set;
  sink_state = some empty_state;
  current = none;
  upcoming = [];
}

moves-all_read_example :
    moves {S = ℕ}
      (files (some two_files))
      (append_only_log ∷ [])
      (ok 10 ∷ ok 20 ∷ ok 30 ∷ [])
      at_start
    ≡ reads (file "a" append_only_log (some "x1")) none 10
      ∷ reads (file "b" append_only_log (some "y1")) none 20
      ∷ ended
      ∷ []
unfolding all_read member_of
moves-all_read_example =
    moves-all_read {S = ℕ} (files (some two_files)) (append_only_log ∷ [])
      ((file "a" append_only_log (some "x1"), 10) ∷ (file "b" append_only_log (some "y1"), 20) ∷ [])
      (ok 30) (some empty_state) [] refl ((refl, refl), ((refl, refl), tt))

moves-IsAgain_example : All (IsAgain {S = ℕ} (file "feed" continuous none)) (
    moves
      (files none)
      (continuous ∷ [])
      (err type_error ∷ ok 1 ∷ [])
      (record at_start { current = some (file "feed" continuous none) }))
moves-IsAgain_example =
    moves-IsAgain {S = ℕ} (files none) (continuous ∷ []) (err type_error ∷ ok 1 ∷ [])
      (file "feed" continuous none)
      (record at_start { current = some (file "feed" continuous none) }) refl refl refl
