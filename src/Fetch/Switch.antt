-- ===== src/Fetch/Switch.antt =====
-- client-lib/src/util/StreamToSinkUtil.ts: the stream `schemaSwitchingWritable`, which gives the records of
-- each schema to a stream of their own. What the sink makes is the parameter `get_writeable`.
use datapm.Common.{
  String, Bool, true, false, ◌||◌, ◌&◌, ◌==◌, Option, none, some, List, [], ◌∷◌, ◌++◌, Result, ok,
  err, thrown, if◌then◌else◌, any, All, ◌≡◌,
}
use datapm.Fetch.Tables.{Table, member_of, with_member, or_new}
use datapm.PackageFile.{UpdateMethod}
use datapm.Fetch.State.{StreamRecord, is_full_set}

module _ {R : Type 0} where
  -- `writableBatches`
  unfoldable pub writable_batches :
      List (StreamRecord R) → Table (List (StreamRecord R)) → Table (List (StreamRecord R))
  unfolding member_of with_member
  writable_batches [] batches = batches
  writable_batches (chunk ∷ chunks) batches =
      let batch = or_new [] (member_of chunk.schema_slug batches) in
      writable_batches chunks (with_member chunk.schema_slug (batch ++ (chunk ∷ [])) batches)

-- A stream of the sink, and the batches that were written to it.
pub record SchemaWritable (R W : Type 0) : Type 0 where
  pub writable : W
  pub written : List (List (StreamRecord R))

-- `packageFile.schemas.find((s) => s.title === schemaSlug)`
abbrev pub has_schema : String → List (Option String) → Bool
has_schema slug titles = any (λ title. is_title slug title) titles
  where
    is_title : String → Option String → Bool
    is_title slug none = false
    is_title slug (some title) = title == slug

-- What a handler comes to, and the streams that it leaves.
abbrev pub Written : Type 0 → Type 0 → Type 0
Written R W = Result Unit × Table (SchemaWritable R W)

abbrev pub then_write :
    {R W : Type 0} → (Table (SchemaWritable R W) → Written R W) → Written R W → Written R W
then_write rest (ok done, writables) = rest writables
then_write rest (err e, writables) = (err e, writables)

module _ {R W : Type 0} where
  -- `schemaWritable.write(batch)`
  abbrev pub write_batch :
      String
      → List (StreamRecord R)
      → SchemaWritable R W
      → Table (SchemaWritable R W)
      → Table (SchemaWritable R W)
  write_batch slug batch w writables =
      with_member slug (record w { written = w.written ++ (batch ∷ []) }) writables

  abbrev pub write_opened :
      String → List (StreamRecord R) → Result W → Table (SchemaWritable R W) → Written R W
  write_opened slug batch (err e) writables = (err e, writables)
  write_opened slug batch (ok w) writables =
      (ok tt, write_batch slug batch (record { writable = w; written = [] }) writables)

module _ {R W : Type 0} (get_writeable : String → UpdateMethod → Bool → Result W) where
  -- The batch of a schema, to a stream that is there or to a new one.
  abbrev pub write_found :
      UpdateMethod
      → Bool
      → String
      → List (StreamRecord R)
      → Option (SchemaWritable R W)
      → Table (SchemaWritable R W)
      → Written R W
  write_found method no_state slug batch none writables =
      write_opened slug batch (get_writeable slug method (no_state || is_full_set method)) writables
  write_found method no_state slug batch (some w) writables =
      (ok tt, write_batch slug batch w writables)

  unfoldable pub write_schema :
      List (Option String)
      → UpdateMethod
      → Bool
      → String
      → List (StreamRecord R)
      → Table (SchemaWritable R W)
      → Written R W
  unfolding member_of with_member
  write_schema titles method no_state slug batch writables =
      if has_schema slug titles
      then write_found method no_state slug batch (member_of slug writables) writables
      else (err (thrown ("SCHEMA_NOT_FOUND: " & slug)), writables)

  -- The loop over the batches, which stops at the first throw.
  unfoldable pub write_schemas :
      List (Option String)
      → UpdateMethod
      → Bool
      → Table (List (StreamRecord R))
      → Table (SchemaWritable R W)
      → Written R W
  unfolding write_schema
  write_schemas titles method no_state [] writables = (ok tt, writables)
  write_schemas titles method no_state ((slug, batch) ∷ batches) writables =
      then_write (write_schemas titles method no_state batches)
        (write_schema titles method no_state slug batch writables)

  -- `write`
  unfoldable pub write_chunks :
      List (Option String)
      → UpdateMethod
      → Bool
      → List (StreamRecord R)
      → Table (SchemaWritable R W)
      → Written R W
  unfolding writable_batches write_schemas
  write_chunks titles method no_state chunks =
      write_schemas titles method no_state (writable_batches chunks [])

  -- The calls of `write` by the stream before, each with the update method of its time.
  unfoldable pub write_calls :
      List (Option String)
      → Bool
      → List (UpdateMethod × List (StreamRecord R))
      → Table (SchemaWritable R W)
      → Written R W
  unfolding write_chunks
  write_calls titles no_state [] writables = (ok tt, writables)
  write_calls titles no_state ((method, chunks) ∷ calls) writables =
      then_write (write_calls titles no_state calls)
        (write_chunks titles method no_state chunks writables)

module _ {R : Type 0} where
  -- The records all have schemas of the package file.
  abbrev pub Known : List (Option String) → List (StreamRecord R) → Type 0
  Known titles = All (λ chunk. has_schema chunk.schema_slug titles ≡ true)

  abbrev pub all_chunks : List (UpdateMethod × List (StreamRecord R)) → List (StreamRecord R)
  all_chunks [] = []
  all_chunks ((method, chunks) ∷ calls) = chunks ++ all_chunks calls
