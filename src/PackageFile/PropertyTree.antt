-- ===== src/PackageFile/PropertyTree.antt =====
-- lib/src/PackageFile-v0.32.1.ts, the recursive part: properties, their value types, and the
-- statistics of a value type, which hold the types of array items and the properties of objects.
use datapm.Common.{
  ℕ, String, Bool, true, false, Option, none, some, List, [], ◌∷◌, ◌==◌, ◌||◌, if◌then◌else◌,
}
use datapm.PackageFile.Json.{Number}

-- PackageUtil.ts
pub data DpmPropertyType : Type 0 where
  string number integer boolean date date_time object array null : DpmPropertyType

pub record ContentLabel : Type 0 where
  pub label : String
  pub hidden : Bool
  pub applied_by_content_detector : Option String
  pub ocurrence_count : Option ℕ
  pub values_tested_count : Option ℕ

-- A count in `stringOptions`: counting up what is not a number makes it `NaN`.
pub data OptionCount : Type 0 where
  count : ℕ → OptionCount
  nan : OptionCount

-- The members of `ValueTypeStatistics` that are not recursive.
pub record ScalarStatistics : Type 0 where
  pub record_count : Option ℕ
  pub string_max_length : Option ℕ
  pub string_min_length : Option ℕ
  pub number_max_value : Option Number
  pub number_min_value : Option Number
  pub number_max_precision : Option ℕ
  pub number_max_scale : Option ℕ
  pub boolean_true_count : Option ℕ
  pub boolean_false_count : Option ℕ
  pub date_max_value : Option ℕ
  pub date_min_value : Option ℕ
  pub date_max_millseconds_precision : Option ℕ
  pub string_options : Option (List (String × OptionCount))
  pub content_labels : Option (List ContentLabel)
  pub array_min_length : Option ℕ
  pub array_max_length : Option ℕ

-- The members of `Property` but for `types`.
pub record PropertyInfo : Type 0 where
  pub title : String
  pub description : Option String
  pub hidden : Option Bool
  pub unit : Option String
  pub first_seen : Option ℕ
  pub last_seen : Option ℕ

mutual
  pub data Property : Type 0 where
    property : PropertyInfo → ValueTypes → Property

  pub data Properties : Type 0 where
    no_properties : Properties
    entry : String → Property → Properties → Properties

  pub data ValueTypes : Type 0 where
    no_types : ValueTypes
    value_type : DpmPropertyType → ValueTypeStatistics → ValueTypes → ValueTypes

  pub data ValueTypeStatistics : Type 0 where
    statistics : ScalarStatistics → OptionalTypes → OptionalProperties → ValueTypeStatistics

  -- `arrayTypes?: ValueTypes`
  pub data OptionalTypes : Type 0 where
    without_types : OptionalTypes
    with_types : ValueTypes → OptionalTypes

  -- `objectProperties?: Properties`
  pub data OptionalProperties : Type 0 where
    without_properties : OptionalProperties
    with_properties : Properties → OptionalProperties

abbrev pub info : Property → PropertyInfo
info (property i ts) = i

abbrev pub types_of : Property → ValueTypes
types_of (property i ts) = ts

abbrev pub is_object : DpmPropertyType → Bool
is_object object = true
is_object _ = false

-- `Object.entries(properties)`
abbrev pub entries : Properties → List (String × Property)
entries no_properties = []
entries (entry k p ps) = (k, p) ∷ entries ps

-- `properties[key]`
unfoldable pub lookup_property : String → Properties → Option Property
lookup_property k no_properties = none
lookup_property k (entry j p ps) = if j == k then some p else lookup_property k ps

-- `Object.keys(properties).indexOf(key) !== -1`
unfoldable pub has_key : String → Properties → Bool
has_key k no_properties = false
has_key k (entry j p ps) = j == k || has_key k ps

-- `Object.keys(types)`
abbrev pub type_names : ValueTypes → List DpmPropertyType
type_names no_types = []
type_names (value_type t s ts) = t ∷ type_names ts

abbrev pub given_properties : OptionalProperties → Option Properties
given_properties without_properties = none
given_properties (with_properties ps) = some ps

abbrev pub optional_properties : ValueTypeStatistics → Option Properties
optional_properties (statistics s at ps) = given_properties ps

-- `types.object`, by its `objectProperties`: `none` if there is no such type.
unfoldable pub object_properties : ValueTypes → Option (Option Properties)
object_properties no_types = none
object_properties (value_type t s ts) =
    if is_object t then some (optional_properties s) else object_properties ts

-- `===` of two type names.
abbrev pub same_type : DpmPropertyType → DpmPropertyType → Bool
same_type string string = true
same_type number number = true
same_type integer integer = true
same_type boolean boolean = true
same_type date date = true
same_type date_time date_time = true
same_type object object = true
same_type array array = true
same_type null null = true
same_type _ _ = false
