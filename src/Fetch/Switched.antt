-- ===== src/Fetch/Switched.antt =====
-- client-lib/src/util/StreamToSinkUtil.ts: which records the stream of each schema is given.
use datapm.Common.{
  String, Bool, true, ◌||◌, ◌==◌, ◌≢◌, Option, none, some, List, [], ◌∷◌, ◌++◌, ◌≡◌, refl, sym, ap,
  subst, ◌∙◌, inl, inr, Result, ok, if◌then◌else◌, All, All-append_left, All-append_right, eq_iff,
  eq_refl, Bool-cases, Option-cases,
}
use datapm.Transforms.Chunks.{concat, append_nil, append_assoc, concat-append}
use datapm.Fetch.Tables.{
  Table, member_of, with_member, or_new, member_of-with_member_same, member_of-with_member_other,
  IsTable, with_member-All, with_member-IsTable, member_of-none,
}
use datapm.PackageFile.{UpdateMethod}
use datapm.Fetch.State.{StreamRecord, is_full_set}
use datapm.Fetch.Switch.{
  writable_batches, SchemaWritable, has_schema, Written, write_batch, write_schema, write_schemas,
  write_chunks, write_calls, Known, all_chunks,
}

module _ {R : Type 0} (slug : String) where
  -- The records of a schema, in order.
  unfoldable pub of_schema : List (StreamRecord R) → List (StreamRecord R)
  of_schema [] = []
  of_schema (chunk ∷ chunks) =
      let rest = of_schema chunks in if chunk.schema_slug == slug then chunk ∷ rest else rest

  pub of_schema-append :
      (xs ys : List (StreamRecord R)) → of_schema (xs ++ ys) ≡ of_schema xs ++ of_schema ys
  unfolding of_schema
  of_schema-append [] ys = refl
  of_schema-append (x ∷ xs) ys = elim (Bool-cases (x.schema_slug == slug)) [
    | inl e ↦ rw e (ap (λ zs. x ∷ zs) (of_schema-append xs ys))
    | inr n ↦ rw n (of_schema-append xs ys)
  ]

  abbrev records_of : Table (List (StreamRecord R)) → List (StreamRecord R)
  records_of batches = or_new [] (member_of slug batches)

  records_of-batch :
      (chunk : StreamRecord R) (batches : Table (List (StreamRecord R)))
      → records_of (
          with_member chunk.schema_slug
            (or_new [] (member_of chunk.schema_slug batches) ++ (chunk ∷ []))
            batches)
        ≡ records_of batches ++ of_schema (chunk ∷ [])
  unfolding of_schema
  records_of-batch chunk batches = elim (Bool-cases (chunk.schema_slug == slug)) [
    | inl e ↦
        rw ((eq_iff _ slug).0 e, eq_refl slug)
          (ap (or_new []) (member_of-with_member_same slug _ batches))
    | inr n ↦ rw n (
        ap (or_new []) (member_of-with_member_other _ slug _ batches n)
        ∙ sym (append_nil (records_of batches)))
  ]

  records_of-writable_batches :
      (chunks : List (StreamRecord R)) (batches : Table (List (StreamRecord R)))
      → records_of (writable_batches chunks batches) ≡ records_of batches ++ of_schema chunks
  unfolding writable_batches
  records_of-writable_batches [] batches = unfold of_schema in sym (append_nil (records_of batches))
  records_of-writable_batches (chunk ∷ chunks) batches =
      records_of-writable_batches chunks _
      ∙ ap (λ xs. xs ++ of_schema chunks) (records_of-batch chunk batches)
      ∙ append_assoc (records_of batches) (of_schema (chunk ∷ [])) (of_schema chunks)
      ∙ ap (λ xs. records_of batches ++ xs) (sym (of_schema-append (chunk ∷ []) chunks))

  -- In a table of distinct keys the first entry is all there is of its key.
  records_of-cons :
      (key : String) (batch : List (StreamRecord R)) (batches : Table (List (StreamRecord R)))
      → All (λ e. key ≢ e.0) batches
      → records_of ((key, batch) ∷ []) ++ records_of batches ≡ records_of ((key, batch) ∷ batches)
  unfolding member_of
  records_of-cons key batch batches n = elim (Bool-cases (key == slug)) [
    | inl e ↦ rw e (
        ap (λ found. batch ++ or_new [] found)
          (member_of-none slug batches
            (subst (λ k. All (λ e. k ≢ e.0) batches) ((eq_iff key slug).0 e) n))
        ∙ append_nil batch)
    | inr m ↦ rw m refl
  ]

  abbrev pub received_in : {W : Type 0} → Option (SchemaWritable R W) → List (StreamRecord R)
  received_in none = []
  received_in (some w) = concat w.written

  -- The records that the stream of a schema was given, in order.
  abbrev pub received_of : {W : Type 0} → Table (SchemaWritable R W) → List (StreamRecord R)
  received_of writables = received_in (member_of slug writables)

  module _ {W : Type 0} where
    same_key :
        (batch : List (StreamRecord R)) (w : SchemaWritable R W)
        (writables : Table (SchemaWritable R W))
        → concat w.written ≡ received_of writables
        → received_of (write_batch slug batch w writables) ≡ received_of writables ++ batch
    same_key batch w writables same =
        ap received_in (member_of-with_member_same slug _ writables)
        ∙ concat-append w.written (batch ∷ [])
        ∙ ap (λ xs. concat w.written ++ xs) (append_nil batch)
        ∙ ap (λ xs. xs ++ batch) same

    received_of-write_batch :
        (key : String) (batch : List (StreamRecord R)) (w : SchemaWritable R W)
        (writables : Table (SchemaWritable R W))
        → concat w.written ≡ received_in (member_of key writables)
        → received_of (write_batch key batch w writables)
          ≡ received_of writables ++ records_of ((key, batch) ∷ [])
    unfolding member_of
    received_of-write_batch key batch w writables same = elim (Bool-cases (key == slug)) [
      | inl e ↦
          let k = (eq_iff key slug).0 e in
          rw (k, eq_refl slug)
            (same_key batch w writables
              (subst (λ x. concat w.written ≡ received_in (member_of x writables)) k same))
      | inr n ↦ rw n (
          ap received_in (member_of-with_member_other key slug _ writables n)
          ∙ sym (append_nil (received_of writables)))
    ]

module _ {R W : Type 0} (get_writeable : String → UpdateMethod → Bool → Result W)
    (titles : List (Option String)) (no_state : Bool) where
  -- What writing leaves, of the stream of each schema.
  abbrev Leaves : Table (List (StreamRecord R)) → Table (SchemaWritable R W) → Written R W → Type 0
  Leaves batches writables result =
      (next : Table (SchemaWritable R W)) × (result ≡ (ok tt, next))
      × ((slug : String)
          → received_of slug next ≡ received_of slug writables ++ records_of slug batches)
      × (IsTable writables → IsTable next)

  batch-Leaves :
      (method : UpdateMethod) (key : String) (batch : List (StreamRecord R))
      (w : SchemaWritable R W) (writables : Table (SchemaWritable R W))
      → concat w.written ≡ received_of key writables
      → Leaves ((key, batch) ∷ []) writables (ok tt, write_batch key batch w writables)
  batch-Leaves method key batch w writables same = (
    write_batch key batch w writables,
    refl,
    λ slug. received_of-write_batch slug key batch w writables same,
    with_member-IsTable key _ writables,
  )

  module _
      (opens : (title : String) (method : UpdateMethod) (replace : Bool)
        → (w : W) × (get_writeable title method replace ≡ ok w)) where
    write_schema-Leaves :
        (method : UpdateMethod) (key : String) (batch : List (StreamRecord R))
        (writables : Table (SchemaWritable R W))
        → has_schema key titles ≡ true
        → Leaves
            ((key, batch) ∷ [])
            writables
            (write_schema get_writeable titles method no_state key batch writables)
    unfolding write_schema
    write_schema-Leaves method key batch writables known =
        elim (Option-cases (member_of key writables)) [
          | inl fresh ↦
              let (w, opened) = opens key method (no_state || is_full_set method) in
              rw (known, fresh, opened)
                (batch-Leaves method key batch (record { writable = w; written = [] }) writables
                  (ap (received_in key) (sym fresh)))
          | inr (w, found) ↦
              rw (known, found)
                (batch-Leaves method key batch w writables (ap (received_in key) (sym found)))
        ]

    abbrev KnownKeys : Table (List (StreamRecord R)) → Type 0
    KnownKeys = All (λ e. has_schema e.0 titles ≡ true)

    write_schemas-Leaves :
        (method : UpdateMethod) (batches : Table (List (StreamRecord R)))
        (writables : Table (SchemaWritable R W))
        → KnownKeys batches
        → IsTable batches
        → Leaves batches writables
            (write_schemas get_writeable titles method no_state batches writables)
    unfolding write_schemas
    write_schemas-Leaves method [] writables known u =
        (writables, refl, λ slug. sym (append_nil (received_of slug writables)), λ t. t)
    write_schemas-Leaves method ((key, batch) ∷ batches) writables (k, known) (n, u) =
        let (mid, writes, gives, keeps) = write_schema-Leaves method key batch writables k in
        let (next, rest, later, stays) = write_schemas-Leaves method batches mid known u in
        (
          next,
          rw writes rest,
          λ slug.
              later slug
              ∙ ap (λ xs. xs ++ records_of slug batches) (gives slug)
              ∙ append_assoc (received_of slug writables) _ _
              ∙ ap (λ xs. received_of slug writables ++ xs)
                  (records_of-cons slug key batch batches n),
          λ t. stays (keeps t),
        )

    writable_batches-Known :
        (chunks : List (StreamRecord R)) (batches : Table (List (StreamRecord R)))
        → Known titles chunks
        → KnownKeys batches
        → IsTable batches
        → KnownKeys (writable_batches chunks batches) × IsTable (writable_batches chunks batches)
    unfolding writable_batches
    writable_batches-Known [] batches h k u = (k, u)
    writable_batches-Known (chunk ∷ chunks) batches (p, h) k u =
        writable_batches-Known chunks _ h
          (with_member-All (λ e. has_schema e.0 titles ≡ true) _ _ batches (λ j b q e. q) p k)
          (with_member-IsTable _ _ batches u)

    calls_leave :
        (calls : List (UpdateMethod × List (StreamRecord R)))
        (writables : Table (SchemaWritable R W))
        → Known titles (all_chunks calls)
        → (next : Table (SchemaWritable R W)) × (write_calls get_writeable titles no_state calls
              writables
            ≡ (ok tt, next))
          × ((slug : String)
              → received_of slug next
                ≡ received_of slug writables ++ of_schema slug (all_chunks calls))
          × (IsTable writables → IsTable next)
    unfolding write_calls write_chunks
    calls_leave [] writables h = (
      writables,
      refl,
      λ slug. unfold of_schema in sym (append_nil (received_of slug writables)),
      λ t. t,
    )
    calls_leave ((method, chunks) ∷ calls) writables h =
        let (known, table) =
          writable_batches-Known chunks [] (All-append_left _ chunks (all_chunks calls) h) tt tt in
        let (mid, writes, gives, keeps) =
          write_schemas-Leaves method (writable_batches chunks []) writables known table in
        let (next, rest, later, stays) =
          calls_leave calls mid (All-append_right _ chunks (all_chunks calls) h) in
        (
          next,
          rw writes rest,
          λ slug.
              later slug
              ∙ ap (λ xs. xs ++ of_schema slug (all_chunks calls))
                  (gives slug
                    ∙ ap (λ xs. received_of slug writables ++ xs)
                        (records_of-writable_batches slug chunks []))
              ∙ append_assoc (received_of slug writables) (of_schema slug chunks) _
              ∙ ap (λ xs. received_of slug writables ++ xs)
                  (sym (of_schema-append slug chunks (all_chunks calls))),
          λ t. stays (keeps t),
        )

    -- If every record has the title of a schema of the package file and the sink makes every stream
    -- that it is asked for, all calls of `write` succeed; there is one stream for each schema at
    -- most, and it was given exactly the records of its schema, in the order in which they came.
    pub write_calls-of_schema :
        (calls : List (UpdateMethod × List (StreamRecord R))) (slug : String)
        → Known titles (all_chunks calls)
        → ((write_calls get_writeable titles no_state calls []).0 ≡ ok tt)
          × IsTable (write_calls get_writeable titles no_state calls []).1
          × (received_of slug (write_calls get_writeable titles no_state calls []).1
              ≡ of_schema slug (all_chunks calls))
    unfolding of_schema member_of
    write_calls-of_schema calls slug h =
        let (next, writes, gives, keeps) = calls_leave calls [] h in
        rw writes (refl, keeps tt, gives slug)
