-- ===== src/Deconflict/Conflicts.antt =====
-- client-lib/src/util/SchemaUtil.ts: `checkSchemaDataTypeConflicts`, and for which types there are choices.
use datapm.Common.{
  String, Bool, true, false, not, ◌&&◌, ◌||◌, List, [], ◌∷◌, length, ltb, ◌≡◌, ◌≢◌, Result, ok, err,
  if◌then◌else◌, arith,
}
use datapm.PackageFile.{Schema}
use datapm.PackageFile.PropertyTree.{
  DpmPropertyType, same_type, Properties, no_properties, entry, types_of, type_names,
}
use datapm.Deconflict.Choices.{
  sorted, insert_sorted, prompt_choices, options_of, get_deconflict_choices,
}

-- `Object.keys(types).filter(v => v !== "null")`
unfoldable pub without_null : List DpmPropertyType → List DpmPropertyType
without_null [] = []
without_null (t ∷ ts) =
    let rest = without_null ts in if same_type t DpmPropertyType.null then rest else t ∷ rest

unfoldable pub conflicts_of : Properties → List (String × List DpmPropertyType)
unfolding without_null sorted
conflicts_of no_properties = []
conflicts_of (entry title p ps) =
    let types = without_null (type_names (types_of p)) in
    let rest = conflicts_of ps in
    if ltb 1 (length types) then (title, sorted types) ∷ rest else rest

unfoldable pub check_schema_data_type_conflicts : Schema → List (String × List DpmPropertyType)
unfolding conflicts_of
check_schema_data_type_conflicts schema = conflicts_of schema.properties

abbrev pub is_nested : DpmPropertyType → Bool
is_nested DpmPropertyType.object = true
is_nested DpmPropertyType.array = true
is_nested _ = false

-- The two types are a boolean and a date with a time.
abbrev pub is_boolean_and_time : DpmPropertyType → DpmPropertyType → Bool
is_boolean_and_time DpmPropertyType.boolean DpmPropertyType.date_time = true
is_boolean_and_time DpmPropertyType.date_time DpmPropertyType.boolean = true
is_boolean_and_time _ _ = false

abbrev pub is_ok {ℓ} : {A : Type ℓ} → Result A → Bool
is_ok (ok a) = true
is_ok (err e) = false

-- For two types that conflict, neither of them null, there are choices, whichever comes first,
-- exactly when both are nested or neither is, and they are not a boolean and a date with a time.
get_deconflict_choices-two :
    (t u : DpmPropertyType)
    → t ≢ u
    → t ≢ DpmPropertyType.null
    → u ≢ DpmPropertyType.null
    → is_ok (get_deconflict_choices (t ∷ u ∷ [])) ≡ (
        ((is_nested t && is_nested u) || (not (is_nested t) && not (is_nested u)))
        && not (is_boolean_and_time t u))
unfolding get_deconflict_choices sorted insert_sorted prompt_choices options_of
get_deconflict_choices-two t u d n m = ground arith
