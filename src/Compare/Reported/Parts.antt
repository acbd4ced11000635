-- ===== src/Compare/Reported/Parts.antt =====
-- lib/src/PackageUtil.ts: the types of difference that the loops over schemas and sources report.
use mathlib.Core.Bool.{not}
use datapm.Common.{
  String, Bool, true, false, Option, none, some, List, [], ◌∷◌, ◌++◌, ◌≡◌, refl, subst, ◌==◌, ◌&&◌,
  Result, ok, err, ◌>>=◌, >>=-eq-ok, ok_injective, for_each-All, find, nat_eq, is_set, text_eq,
  if◌then◌else◌,
}
use datapm.PackageFile.{Source, StreamSet, Schema}
use datapm.Compare.Difference.{DifferenceType, Difference, diff, push_if}
use datapm.Compare.Schemas.{
  compare_schema, compare_with_schemas, has_title, missing_schema, compare_schemas,
}
use datapm.Compare.Sources.{
  DeepEqual, compare_stream, compare_arrays, compare_config_objects, compare_stream_set,
  compare_stream_sets, compare_source_head, compare_source, compare_with_sources,
}
use datapm.Compare.Reported.Entries.{
  IsReported, AllReported, both, push_if-Reported, push_then, compare_schema-Reported,
}

compare_with_schemas-Reported :
    (a : Schema) (bs : List Schema) (ds : List Difference)
    → compare_with_schemas a bs ≡ ok ds
    → AllReported ds
unfolding compare_with_schemas
compare_with_schemas-Reported a [] ds e = subst AllReported (ok_injective e) tt
compare_with_schemas-Reported a (b ∷ bs) ds e =
    let (here, e₁, k₁) =
      >>=-eq-ok (if a.title == b.title then compare_schema a b "#" else ok []) _ e in
    let (rest, e₂, k₂) = >>=-eq-ok (compare_with_schemas a bs) _ k₁ in
    subst AllReported (ok_injective k₂) (
      both here rest (first (a.title == b.title) here e₁)
        (compare_with_schemas-Reported a bs rest e₂))
  where
    first :
        (t : Bool) (here : List Difference)
        → (if t then compare_schema a b "#" else ok []) ≡ ok here
        → AllReported here
    first true here e = compare_schema-Reported a b "#" here e
    first false here e = subst AllReported (ok_injective e) tt

missing_schema-Reported : (a : Schema) → AllReported (missing_schema a)
unfolding missing_schema
missing_schema-Reported a = by_flag (is_set a.hidden)
  where
    by_flag :
        (b : Bool)
        → AllReported (
            if b
            then diff DifferenceType.remove_hidden_schema "" ∷ []
            else diff DifferenceType.remove_schema "" ∷ [])
    by_flag true = (tt, tt)
    by_flag false = (tt, tt)

-- A loop whose rounds end by what is missing on the new side.
pub round-Reported :
    (r : Result (List Difference)) (missing : List Difference)
    → ((ds : List Difference) → r ≡ ok ds → AllReported ds)
    → AllReported missing
    → (ds : List Difference) → (r >>= λ matched. ok (matched ++ missing)) ≡ ok ds
    → AllReported ds
round-Reported (ok matched) missing h k ds e =
    subst AllReported (ok_injective e) (both matched missing (h matched refl) k)
round-Reported (err x) missing h k ds e = cc

pub compare_schemas-Reported :
    (xs ys : List Schema) (ds : List Difference) → compare_schemas xs ys ≡ ok ds → AllReported ds
unfolding compare_schemas
compare_schemas-Reported xs ys ds e =
    for_each-All (λ d. IsReported d.type) xs _
      (λ a.
        round-Reported (compare_with_schemas a ys)
          (if has_title a.title ys then [] else missing_schema a)
          (compare_with_schemas-Reported a ys) (none_or (has_title a.title ys) a))
      ds e
  where
    none_or : (b : Bool) (a : Schema) → AllReported (if b then [] else missing_schema a)
    none_or true a = tt
    none_or false a = missing_schema-Reported a

-- Only the number of inspected records counts as a change of the statistics.
stream_stats-Reported :
    (b : Bool) (p : String)
    → AllReported (
        if b
        then diff DifferenceType.change_stream_stats p ∷ []
        else if b
        then diff DifferenceType.change_stream_stats p ∷ []
        else if b
        then diff DifferenceType.change_stream_stats p ∷ []
        else if b
        then diff DifferenceType.change_stream_stats p ∷ []
        else [])
stream_stats-Reported true p = (tt, tt)
stream_stats-Reported false p = tt

compare_stream-Reported : (s t : StreamSet) (p : String) → AllReported (compare_stream s t p)
unfolding compare_stream
compare_stream-Reported s t p =
    both _
      (push_if
        (not (text_eq s.last_update_hash t.last_update_hash)
          && not (text_eq s.last_update_hash none))
        DifferenceType.change_stream_update_hash p)
      (stream_stats-Reported
        (not (nat_eq s.stream_stats.inspected_count t.stream_stats.inspected_count)) p)
      (push_if-Reported
        (not (text_eq s.last_update_hash t.last_update_hash)
          && not (text_eq s.last_update_hash none))
        DifferenceType.change_stream_update_hash p tt)

module _ (deep_equal : DeepEqual) where
  compare_stream_set-Reported :
      (s : StreamSet) (t : Option StreamSet) (p : String)
      → AllReported (compare_stream_set deep_equal s t p)
  unfolding compare_stream_set
  compare_stream_set-Reported s none p = (tt, tt)
  compare_stream_set-Reported s (some t) p =
      push_then (not (compare_arrays deep_equal (some t.update_methods) (some s.update_methods)))
        DifferenceType.change_stream_update_method p _ tt (compare_stream-Reported s t p)

  compare_stream_sets-Reported :
      (ts : List StreamSet) (b : Option Source) (p : String) (ds : List Difference)
      → compare_stream_sets deep_equal ts b p ≡ ok ds
      → AllReported ds
  unfolding compare_stream_sets
  compare_stream_sets-Reported [] b p ds e = subst AllReported (ok_injective e) tt
  compare_stream_sets-Reported (t ∷ ts) none p ds e = cc
  compare_stream_sets-Reported (t ∷ ts) (some b) p ds e =
      let (rest, e₁, k) = >>=-eq-ok (compare_stream_sets deep_equal ts (some b) p) _ e in
      let here = find (λ (s : StreamSet). s.slug == t.slug) b.stream_sets in
      subst AllReported (ok_injective k) (
        both (compare_stream_set deep_equal t here p) rest (compare_stream_set-Reported t here p)
          (compare_stream_sets-Reported ts (some b) p rest e₁))

  compare_source_head-Reported :
      (a b : Source) (p : String) → AllReported (compare_source_head deep_equal (some a) (some b) p)
  unfolding compare_source_head
  compare_source_head-Reported a b p = by_type (not (a.type == b.type)) _ (
      push_then (not (compare_config_objects deep_equal a.configuration b.configuration))
        DifferenceType.change_source_configuration p _ tt
        (push_then
          (not (
            compare_config_objects deep_equal (some a.connection_configuration)
              (some b.connection_configuration)))
          DifferenceType.change_source_connection p _ tt
          (push_if-Reported (not (text_eq a.credentials_identifier b.credentials_identifier))
            DifferenceType.change_source_credentials p tt)))
    where
      by_type :
          (t : Bool) (ds : List Difference)
          → AllReported ds
          → AllReported (if t then diff DifferenceType.change_source p ∷ [] else ds)
      by_type true ds h = (tt, tt)
      by_type false ds h = h

  compare_source-Reported :
      (a b : Source) (p : String) (ds : List Difference)
      → compare_source deep_equal (some a) (some b) p ≡ ok ds
      → AllReported ds
  unfolding compare_source
  compare_source-Reported a b p ds e =
      let (streams, e₁, k) =
        >>=-eq-ok (compare_stream_sets deep_equal a.stream_sets (some b) p) _ e in
      subst AllReported (ok_injective k) (
        both (compare_source_head deep_equal (some a) (some b) p) streams
          (compare_source_head-Reported a b p)
          (compare_stream_sets-Reported a.stream_sets (some b) p streams e₁))

  pub compare_with_sources-Reported :
      (a : Source) (bs : List Source) (ds : List Difference)
      → compare_with_sources deep_equal a bs ≡ ok ds
      → AllReported ds
  unfolding compare_with_sources
  compare_with_sources-Reported a [] ds e = subst AllReported (ok_injective e) tt
  compare_with_sources-Reported a (b ∷ bs) ds e =
      let (here, e₁, k₁) =
        >>=-eq-ok
          (if a.slug == b.slug then compare_source deep_equal (some a) (some b) "#" else ok []) _
          e in
      let (rest, e₂, k₂) = >>=-eq-ok (compare_with_sources deep_equal a bs) _ k₁ in
      subst AllReported (ok_injective k₂) (
        both here rest (first (a.slug == b.slug) here e₁)
          (compare_with_sources-Reported a bs rest e₂))
    where
      first :
          (t : Bool) (here : List Difference)
          → (if t then compare_source deep_equal (some a) (some b) "#" else ok []) ≡ ok here
          → AllReported here
      first true here e = compare_source-Reported a b "#" here e
      first false here e = subst AllReported (ok_injective e) tt
