-- ===== src/Fetch/State.antt =====
-- lib/src/SinkState.ts, and client-lib/src/util/transforms/SinkStateWritable.ts, which writes into the state
-- of a sink what the sink has written. Offsets are natural numbers.
use datapm.Common.{
  ℕ, zero, suc, String, Bool, true, false, Option, none, some, List, [], ◌∷◌, ◌≡◌, refl,
}
use datapm.PackageFile.{UpdateMethod, batch_full_set, append_only_log, continuous}
use datapm.Fetch.Tables.{Table, member_of, with_member, or_new}

pub record SchemaState : Type 0 where
  pub last_offset : Option ℕ

pub record StreamState : Type 0 where
  pub update_hash : Option String
  pub schema_states : Table SchemaState
  pub stream_offset : Option ℕ

pub record StreamSetState : Type 0 where
  pub update_hash : Option String
  pub stream_states : Table StreamState

pub record SinkState : Type 0 where
  pub package_version : String
  pub timestamp : ℕ
  pub stream_sets : Table StreamSetState

abbrev pub new_stream_set : StreamSetState
new_stream_set = record { update_hash = none; stream_states = [] }

abbrev pub new_stream : StreamState
new_stream = record { update_hash = none; schema_states = []; stream_offset = none }

abbrev pub is_full_set : UpdateMethod → Bool
is_full_set batch_full_set = true
is_full_set append_only_log = false
is_full_set continuous = false

-- The members of a record's context that decide where it is counted and written.
pub record StreamRecord (R : Type 0) : Type 0 where
  pub stream_set_slug : String
  pub stream_slug : String
  pub schema_slug : String
  pub offset : Option ℕ
  pub rest : R

-- `offset || null`
abbrev pub or_null : ℕ → Option ℕ
or_null zero = none
or_null (suc n) = some (suc n)

-- The state of a stream after a record with an offset.
unfoldable pub advanced : String → ℕ → StreamState → StreamState
unfolding with_member
advanced schema_slug offset stream_state = record stream_state {
  stream_offset = some offset;
  schema_states =
      with_member schema_slug (record { last_offset = or_null offset }) stream_state.schema_states;
}

-- `_write`
module _ {R : Type 0} where
  abbrev pub write_offset : StreamRecord R → Option ℕ → SinkState → SinkState
  write_offset chunk none s = s
  write_offset chunk (some offset) s =
      let stream_set = or_new new_stream_set (member_of chunk.stream_set_slug s.stream_sets) in
      let stream_state = or_new new_stream (member_of chunk.stream_slug stream_set.stream_states) in
      record s {
        stream_sets =
            with_member chunk.stream_set_slug
              (record stream_set {
                stream_states =
                    with_member chunk.stream_slug (advanced chunk.schema_slug offset stream_state)
                      stream_set.stream_states;
              })
              s.stream_sets;
      }

  unfoldable pub write : Option (StreamRecord R) → SinkState → SinkState
  unfolding member_of with_member advanced
  write none s = s
  write (some chunk) s = write_offset chunk chunk.offset s

  unfoldable pub write_all : List (Option (StreamRecord R)) → SinkState → SinkState
  unfolding write
  write_all [] s = s
  write_all (chunk ∷ chunks) s = write_all chunks (write chunk s)

-- `sinkState?.streamSets[a]?.streamStates[b]`
abbrev pub stream_state_in : String → Option StreamSetState → Option StreamState
stream_state_in stream_slug none = none
stream_state_in stream_slug (some stream_set) = member_of stream_slug stream_set.stream_states

abbrev pub stream_state_of : String → String → SinkState → Option StreamState
stream_state_of stream_set_slug stream_slug s =
    stream_state_in stream_slug (member_of stream_set_slug s.stream_sets)

-- A stream set that is put in has no streams.
pub stream_state_in_new :
    (stream : String) (sets : Option StreamSetState)
    → member_of stream (or_new new_stream_set sets).stream_states ≡ stream_state_in stream sets
unfolding member_of
stream_state_in_new stream none = refl
stream_state_in_new stream (some stream_set) = refl
