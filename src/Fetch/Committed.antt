-- ===== src/Fetch/Committed.antt =====
-- client-lib/src/util/StreamToSinkUtil.ts: what newRecordsAvailable says of a state that fetch has
-- committed.
use datapm.Common.{
  ℕ, String, Bool, true, false, ◌||◌, ◌==◌, ◌≢◌, Option, none, some, List, [], ◌∷◌, ◌≡◌, refl, sym,
  ap, ◌∙◌, inl, inr, if◌then◌else◌, any, All, Unique, eq_iff, eq_refl, Bool-cases,
}
use datapm.Fetch.Tables.{member_of, or_new, member_of-with_member_same, member_of-with_member_other}
use datapm.Fetch.State.{
  SinkState, StreamRecord, write_offset, write, write_all, new_stream_set, stream_state_of,
  stream_state_in_new,
}
use datapm.Fetch.Available.{
  StreamSummary, StreamSetPreview, no_text, differ, is_new, any_new, hash_to_keep,
  new_records_available, commit_summary, commit_summaries, final_sink_state,
}

abbrev pub no_hash : Option String → Bool
no_hash none = true
no_hash (some hash) = false

module _ (slug : String) (stopped_early : Bool) where
  commit_summary_same :
      (summary : StreamSummary) (s : SinkState)
      → is_new summary
          (stream_state_of slug summary.name (commit_summary slug stopped_early summary s))
        ≡ differ (hash_to_keep stopped_early summary.update_hash) summary.update_hash
  commit_summary_same summary s = rw (member_of-with_member_same, member_of-with_member_same) refl

  commit_summary_other :
      (summary : StreamSummary) (name : String) (s : SinkState)
      → (summary.name == name) ≡ false
      → stream_state_of slug name (commit_summary slug stopped_early summary s)
        ≡ stream_state_of slug name s
  commit_summary_other summary name s n =
      rw member_of-with_member_same
        (member_of-with_member_other _ name _ _ n ∙ stream_state_in_new name _)

  -- Names that are not committed keep their state.
  commit_summaries_other :
      (summaries : List StreamSummary) (name : String) (s : SinkState)
      → All (λ summary. name ≢ summary.name) summaries
      → stream_state_of slug name (commit_summaries slug stopped_early summaries s)
        ≡ stream_state_of slug name s
  unfolding commit_summaries
  commit_summaries_other [] name s h = refl
  commit_summaries_other (m ∷ ms) name s (n, h) =
      commit_summaries_other ms name (commit_summary slug stopped_early m s) h
      ∙ commit_summary_other m name s (apart m.name name n)
    where
      apart : (a b : String) → b ≢ a → (a == b) ≡ false
      apart a b n = elim (Bool-cases (a == b)) [
        | inl e ↦ absurd (n (sym ((eq_iff a b).0 e)))
        | inr f ↦ f
      ]

  lost_differs :
      (hash : Option String)
      → differ (hash_to_keep stopped_early hash) hash ≡ (stopped_early || no_hash hash)
  lost_differs hash = differs stopped_early hash
    where
      differs :
          (stopped : Bool) (hash : Option String)
          → differ (hash_to_keep stopped hash) hash ≡ (stopped || no_hash hash)
      differs true none = refl
      differs true (some a) = refl
      differs false none = refl
      differs false (some a) = rw (eq_refl a) refl

  any_lost :
      (ms : List StreamSummary) (s : SinkState)
      → Unique (λ m. m.name) ms
      → any
          (λ m. is_new m (stream_state_of slug m.name (commit_summaries slug stopped_early ms s)))
          ms
        ≡ any (λ m. stopped_early || no_hash m.update_hash) ms
  unfolding commit_summaries
  any_lost [] s u = refl
  any_lost (m ∷ ms) s (n, u) =
      ap
        (λ b.
          b
          || any
              (λ k. is_new k (
                stream_state_of slug k.name
                  (commit_summaries slug stopped_early ms (commit_summary slug stopped_early m s))))
              ms)
        (ap (is_new m) (commit_summaries_other ms m.name (commit_summary slug stopped_early m s) n)
          ∙ commit_summary_same m s
          ∙ lost_differs m.update_hash)
      ∙ ap (λ r. (stopped_early || no_hash m.update_hash) || r)
          (any_lost ms (commit_summary slug stopped_early m s) u)

any_new_of :
    (slug : String) (ms : List StreamSummary) (s : SinkState)
    → any_new ms (or_new new_stream_set (member_of slug s.stream_sets))
      ≡ any (λ m. is_new m (stream_state_of slug m.name s)) ms
unfolding any_new
any_new_of slug [] s = refl
any_new_of slug (m ∷ ms) s = rw stream_state_in_new (
    ap (λ r. if is_new m (stream_state_of slug m.name s) then true else r) (any_new_of slug ms s)
    ∙ if_or (is_new m (stream_state_of slug m.name s)) _)
  where
    if_or : (b c : Bool) → (if b then true else c) ≡ (b || c)
    if_or true c = refl
    if_or false c = refl

-- After fetch has committed the state of a preview with summaries of different names, there are new
-- records of the same preview exactly when the fetch was stopped early and there are summaries, or a
-- summary has no update hash.
pub new_records_available-committed :
    (version : String) (preview : StreamSetPreview) (summaries : List StreamSummary)
    (stopped_early : Bool) (s : SinkState)
    → preview.stream_summaries ≡ some summaries
    → Unique (λ m. m.name) summaries
    → (new_records_available preview (some (final_sink_state version preview stopped_early s))).0
      ≡ any (λ m. stopped_early || no_hash m.update_hash) summaries
unfolding new_records_available final_sink_state
new_records_available-committed version preview summaries stopped_early s h u = rw h (
    any_new_of preview.slug summaries (
      commit_summaries preview.slug stopped_early summaries
        (record s { package_version = version }))
    ∙ any_lost preview.slug stopped_early summaries (record s { package_version = version }) u)

-- The update hash of a stream set.
abbrev set_hash : String → SinkState → Option String
set_hash slug s = (or_new new_stream_set (member_of slug s.stream_sets)).update_hash

module _ {R : Type 0} (slug : String) where
  write_offset-set_hash :
      (chunk : StreamRecord R) (offset : Option ℕ) (s : SinkState)
      → set_hash slug (write_offset chunk offset s) ≡ set_hash slug s
  write_offset-set_hash chunk none s = refl
  write_offset-set_hash chunk (some offset) s = elim (Bool-cases (chunk.stream_set_slug == slug)) [
    | inl e ↦ rw ((eq_iff _ slug).0 e) (
        ap (λ found. (or_new new_stream_set found).update_hash)
          (member_of-with_member_same slug _ s.stream_sets))
    | inr n ↦
        ap (λ found. (or_new new_stream_set found).update_hash)
          (member_of-with_member_other _ slug _ s.stream_sets n)
  ]

  write_all-set_hash :
      (chunks : List (Option (StreamRecord R))) (s : SinkState)
      → set_hash slug (write_all chunks s) ≡ set_hash slug s
  unfolding write_all write
  write_all-set_hash [] s = refl
  write_all-set_hash (none ∷ chunks) s = write_all-set_hash chunks s
  write_all-set_hash (some chunk ∷ chunks) s =
      write_all-set_hash chunks (write (some chunk) s) ∙ write_offset-set_hash chunk chunk.offset s

-- For a preview without summaries, a fetch makes no difference to whether there are new records:
-- neither the writes nor the commit stores the update hash of a stream set.
pub new_records_available-unchanged :
    {R : Type 0} (version : String) (preview : StreamSetPreview) (stopped_early : Bool)
    (chunks : List (Option (StreamRecord R))) (s : SinkState)
    → preview.stream_summaries ≡ none
    → (new_records_available preview
        (some (final_sink_state version preview stopped_early (write_all chunks s)))).0
      ≡ (new_records_available preview (some s)).0
unfolding new_records_available final_sink_state commit_summaries
new_records_available-unchanged version preview stopped_early chunks s h = rw h (
    ap (λ hash. no_text preview.update_hash || no_text hash)
      (write_all-set_hash preview.slug chunks s))
