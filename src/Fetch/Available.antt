-- ===== src/Fetch/Available.antt =====
-- client-lib/src/util/StreamToSinkUtil.ts: whether a stream set has new records, and the state that is
-- committed after the writes.
use datapm.Common.{
  String, Bool, true, false, not, ◌||◌, ◌==◌, Option, none, some, List, [], ◌∷◌, if◌then◌else◌,
}
use datapm.Fetch.Tables.{member_of, with_member, or_new}
use datapm.PackageFile.{UpdateMethod}
use datapm.Fetch.State.{StreamState, StreamSetState, SinkState, new_stream_set, new_stream}

-- The members of `StreamSummary` and `StreamSetPreview` that are read.
pub record StreamSummary : Type 0 where
  pub name : String
  pub update_method : UpdateMethod
  pub update_hash : Option String

pub record StreamSetPreview : Type 0 where
  pub slug : String
  pub update_hash : Option String
  pub stream_summaries : Option (List StreamSummary)

-- `!hash`
abbrev pub no_text : Option String → Bool
no_text none = true
no_text (some hash) = hash == ""

-- `a == null || b == null`, and else `a !== b`
abbrev pub differ : Option String → Option String → Bool
differ none b = true
differ (some a) none = true
differ (some a) (some b) = not (a == b)

abbrev pub is_new : StreamSummary → Option StreamState → Bool
is_new summary none = true
is_new summary (some stream_state) = differ stream_state.update_hash summary.update_hash

-- The loop over the summaries.
unfoldable pub any_new : List StreamSummary → StreamSetState → Bool
unfolding member_of
any_new [] stream_set = false
any_new (summary ∷ summaries) stream_set =
    let rest = any_new summaries stream_set in
    if is_new summary (member_of summary.name stream_set.stream_states) then true else rest

abbrev pub is_available : StreamSetPreview → Option (List StreamSummary) → StreamSetState → Bool
is_available preview none stream_set = no_text preview.update_hash || no_text stream_set.update_hash
is_available preview (some summaries) stream_set = any_new summaries stream_set

-- A stream set that the state does not have is put there.
abbrev pub with_stream_set : String → SinkState → Option StreamSetState → SinkState
with_stream_set slug s none = record s {
  stream_sets = with_member slug new_stream_set s.stream_sets;
}
with_stream_set slug s (some stream_set) = s

unfoldable pub new_records_available : StreamSetPreview → Option SinkState → Bool × Option SinkState
unfolding any_new member_of with_member
new_records_available preview none = (true, none)
new_records_available preview (some s) =
    let found = member_of preview.slug s.stream_sets in
    (
      is_available preview preview.stream_summaries (or_new new_stream_set found),
      some (with_stream_set preview.slug s found),
    )

-- `stoppedEarly ? undefined : hash`
abbrev pub hash_to_keep : Bool → Option String → Option String
hash_to_keep stopped_early hash = if stopped_early then none else hash

abbrev pub commit_summary : String → Bool → StreamSummary → SinkState → SinkState
commit_summary slug stopped_early summary s =
    let stream_set = or_new new_stream_set (member_of slug s.stream_sets) in
    let stream_state = or_new new_stream (member_of summary.name stream_set.stream_states) in
    record s {
      stream_sets =
          with_member slug
            (record stream_set {
              stream_states =
                  with_member summary.name
                    (record stream_state {
                      update_hash = hash_to_keep stopped_early summary.update_hash;
                    })
                    stream_set.stream_states;
            })
            s.stream_sets;
    }

unfoldable pub commit_summaries : String → Bool → List StreamSummary → SinkState → SinkState
unfolding member_of with_member
commit_summaries slug stopped_early [] s = s
commit_summaries slug stopped_early (summary ∷ summaries) s =
    commit_summaries slug stopped_early summaries (commit_summary slug stopped_early summary s)

abbrev pub or_no_summaries : Option (List StreamSummary) → List StreamSummary
or_no_summaries none = []
or_no_summaries (some summaries) = summaries

-- The state that the handler of `finish` gives to `commitAfterWrites`.
unfoldable pub final_sink_state : String → StreamSetPreview → Bool → SinkState → SinkState
unfolding commit_summaries
final_sink_state version preview stopped_early s =
    commit_summaries preview.slug stopped_early (or_no_summaries preview.stream_summaries)
      (record s { package_version = version })
