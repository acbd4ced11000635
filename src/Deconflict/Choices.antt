-- ===== src/Deconflict/Choices.antt =====
-- client-lib/src/util/SchemaUtil.ts: `DeconflictOptions` and `getDeconflictChoices`. The names of the
-- value types have no comma, so that a joined list of names is given by the list.
use datapm.Common.{
  ℕ, String, Option, none, some, List, [], ◌∷◌, map, length, ltb, ◌&◌, Result, ok, err, thrown,
  if◌then◌else◌,
}
use datapm.PackageFile.PropertyTree.{DpmPropertyType, same_type}

pub data DeconflictOptions : Type 0 where
  cast_to_boolean cast_to_integer cast_to_double cast_to_date cast_to_date_time : DeconflictOptions
  cast_to_string cast_to_null skip all_types : DeconflictOptions

pub record ParameterOption : Type 0 where
  pub title : String
  pub value : DeconflictOptions

abbrev pub type_name : DpmPropertyType → String
type_name DpmPropertyType.string = "string"
type_name DpmPropertyType.number = "number"
type_name DpmPropertyType.integer = "integer"
type_name DpmPropertyType.boolean = "boolean"
type_name DpmPropertyType.date = "date"
type_name DpmPropertyType.date_time = "date-time"
type_name DpmPropertyType.object = "object"
type_name DpmPropertyType.array = "array"
type_name DpmPropertyType.null = "null"

-- The place of a name in the order of the texts.
abbrev pub place : DpmPropertyType → ℕ
place DpmPropertyType.array = 0
place DpmPropertyType.boolean = 1
place DpmPropertyType.date = 2
place DpmPropertyType.date_time = 3
place DpmPropertyType.integer = 4
place DpmPropertyType.null = 5
place DpmPropertyType.number = 6
place DpmPropertyType.object = 7
place DpmPropertyType.string = 8

-- `valueTypes.sort()`
unfoldable pub insert_sorted : DpmPropertyType → List DpmPropertyType → List DpmPropertyType
insert_sorted t [] = t ∷ []
insert_sorted t (u ∷ us) =
    let rest = insert_sorted t us in if ltb (place u) (place t) then u ∷ rest else t ∷ u ∷ us

unfoldable pub sorted : List DpmPropertyType → List DpmPropertyType
unfolding insert_sorted
sorted [] = []
sorted (t ∷ ts) = insert_sorted t (sorted ts)

-- `${nonStringValueType}`
unfoldable pub non_string_name : List DpmPropertyType → String
non_string_name [] = "undefined"
non_string_name (t ∷ ts) =
    let rest = non_string_name ts in
    if same_type t DpmPropertyType.string then rest else type_name t

-- The table `deconflictChoices`.
unfoldable pub deconflict_choice : String → DeconflictOptions → ParameterOption
deconflict_choice non_string cast_to_boolean = record {
  title = "Cast all values as boolean";
  value = cast_to_boolean;
}
deconflict_choice non_string cast_to_integer = record {
  title = "Cast all values as integer";
  value = cast_to_integer;
}
deconflict_choice non_string cast_to_double = record {
  title = "Cast all values as numbers";
  value = cast_to_double;
}
deconflict_choice non_string cast_to_date = record {
  title = "Cast all values as date (no time)";
  value = cast_to_date;
}
deconflict_choice non_string cast_to_date_time = record {
  title = "Cast all values as date timestamps";
  value = cast_to_date_time;
}
deconflict_choice non_string cast_to_string = record {
  title = "Cast all values as string";
  value = cast_to_string;
}
deconflict_choice non_string cast_to_null = record {
  title = "Output " & non_string & ", otherwise cast to null";
  value = cast_to_null;
}
deconflict_choice non_string skip = record {
  title = "Output " & non_string & ", otherwise skip record";
  value = skip;
}
deconflict_choice non_string all_types = record {
  title = "Output all value types";
  value = all_types;
}

-- The table `deconflictOptions`, at two sorted types.
unfoldable pub options_of : DpmPropertyType → DpmPropertyType → Option (List DeconflictOptions)
options_of DpmPropertyType.boolean DpmPropertyType.date = some (cast_to_string ∷ all_types ∷ [])
options_of DpmPropertyType.boolean DpmPropertyType.integer =
    some (cast_to_boolean ∷ cast_to_integer ∷ all_types ∷ [])
options_of DpmPropertyType.boolean DpmPropertyType.number =
    some (cast_to_boolean ∷ cast_to_double ∷ all_types ∷ [])
options_of DpmPropertyType.boolean DpmPropertyType.string =
    some (cast_to_string ∷ cast_to_null ∷ skip ∷ all_types ∷ [])
options_of DpmPropertyType.date DpmPropertyType.date_time =
    some (cast_to_date_time ∷ cast_to_date ∷ all_types ∷ [])
options_of DpmPropertyType.date_time DpmPropertyType.integer =
    some (cast_to_date_time ∷ cast_to_integer ∷ all_types ∷ [])
options_of DpmPropertyType.date_time DpmPropertyType.number =
    some (cast_to_date_time ∷ cast_to_double ∷ all_types ∷ [])
options_of DpmPropertyType.date_time DpmPropertyType.string =
    some (cast_to_date_time ∷ cast_to_string ∷ all_types ∷ [])
options_of DpmPropertyType.date DpmPropertyType.integer =
    some (cast_to_integer ∷ cast_to_date ∷ cast_to_string ∷ all_types ∷ [])
options_of DpmPropertyType.date DpmPropertyType.number = some (cast_to_string ∷ all_types ∷ [])
options_of DpmPropertyType.date DpmPropertyType.string =
    some (cast_to_string ∷ cast_to_null ∷ skip ∷ [])
options_of DpmPropertyType.integer DpmPropertyType.number =
    some (cast_to_double ∷ cast_to_string ∷ all_types ∷ [])
options_of DpmPropertyType.integer DpmPropertyType.string =
    some (cast_to_string ∷ cast_to_null ∷ skip ∷ all_types ∷ [])
options_of DpmPropertyType.number DpmPropertyType.string =
    some (cast_to_string ∷ cast_to_null ∷ skip ∷ all_types ∷ [])
options_of DpmPropertyType.array DpmPropertyType.object = some (cast_to_string ∷ [])
options_of _ _ = none

-- `deconflictOptions[valueTypeList]`
unfoldable pub prompt_choices : List DpmPropertyType → Option (List DeconflictOptions)
unfolding options_of
prompt_choices [] = none
prompt_choices (t ∷ []) = none
prompt_choices (t ∷ u ∷ []) = options_of t u
prompt_choices (t ∷ u ∷ v ∷ ts) = some (cast_to_string ∷ all_types ∷ [])

unfoldable pub join_names : List DpmPropertyType → String
join_names [] = ""
join_names (t ∷ []) = type_name t
join_names (t ∷ u ∷ ts) = type_name t & "," & join_names (u ∷ ts)

abbrev pub offered :
    String → List DpmPropertyType → Option (List DeconflictOptions) → Result (List ParameterOption)
offered non_string types none =
    err (thrown ("No deconflict options found for value types: " & join_names types))
offered non_string types (some choices) = ok (map (deconflict_choice non_string) choices)

-- `sort` sorts in place, but is not called for more than two types.
unfoldable pub get_deconflict_choices : List DpmPropertyType → Result (List ParameterOption)
unfolding sorted non_string_name deconflict_choice prompt_choices join_names
get_deconflict_choices types =
    offered (non_string_name types) (sorted types)
      (if ltb 2 (length types) then prompt_choices types else prompt_choices (sorted types))
