-- ===== src/Registry/Versions.antt =====
-- lib/src/PackageUtil.ts, `nextVersion`, and backend/src/business/CreateVersion.ts. The package
-- `semver` is a parameter, as are what the repositories answer, how `parseFloat` and `parseInt` read a
-- text, and the typed reading of a package file. A call is a transaction: one that throws has no
-- effect, one that returns gives its effects in order.
use datapm.Common.{
  ℕ, String, Bool, true, false, Option, none, some, List, [], ◌∷◌, ◌++◌, Result, ok, err, Error,
  type_error, thrown, ◌>>=◌, ◌&◌, if◌then◌else◌, nat_eq, not, ◌&&◌,
}
use datapm.PackageFile.{PackageFile}
use datapm.PackageFile.Json.{Json, string, Number}
use datapm.Compare.Difference.{
  Compability, identical, minor_change, compatible_change, breaking_change, Difference,
  diff_compatibility, compatibility_to_string,
}
use datapm.Compare.Sources.{DeepEqual, compare_packages}
use datapm.Upgrade.Objects.{read}
use datapm.Upgrade.Chain.{upgrade_package_file}

-- What `compare` of `semver` returns: -1, 0 or 1.
pub data Comparison : Type 0 where
  lower same higher : Comparison

-- What the code uses of the class `SemVer`.
pub record SemVerPackage : Type 1 where
  pub SemVer : Type 0
  pub make : String → Result SemVer
  pub version : SemVer → String
  pub inc_major : SemVer → SemVer
  pub inc_minor : SemVer → SemVer
  pub inc_patch : SemVer → SemVer
  pub compare : SemVer → String → Comparison

pub data ActivityLogChangeType : Type 0 where
  version_first_version version_trivial_change version_patch_change : ActivityLogChangeType
  version_minor_change version_major_change : ActivityLogChangeType

pub data ActivityLogEventType : Type 0 where
  version_created version_updated : ActivityLogEventType

-- The changes that the call makes. A version is given by the identifier of its entity.
pub data Effect (V : Type 0) : Type 0 where
  touch_version : ℕ → Effect V
  save_version : ℕ → PackageFile → Effect V
  update_readme_vectors : Option String → Effect V
  create_activity_log : ActivityLogEventType → ActivityLogChangeType → ℕ → Effect V
  save_version_comparison : ℕ → ℕ → List Difference → Effect V
  write_package_file : V → Json → Effect V

-- What the repositories and the storage answer.
pub record Answers : Type 0 where
  pub latest_version : Option ℕ
  pub stored_package_file : Result PackageFile
  pub saved_id : ℕ
  pub package_found : Result (Unit {0})
  pub recalled : Bool

-- What the comparison with the latest version decides.
pub record Decision (V : Type 0) : Type 0 where
  pub change_type : ActivityLogChangeType
  pub saved_version : ℕ
  pub differences : List Difference
  pub effects : List (Effect V)

abbrev pub change_type_of : Compability → ActivityLogChangeType
change_type_of minor_change = version_patch_change
change_type_of compatible_change = version_minor_change
change_type_of breaking_change = version_major_change
change_type_of identical = version_first_version

abbrev pub event_type_of : ActivityLogChangeType → ActivityLogEventType
event_type_of version_trivial_change = version_updated
event_type_of _ = version_created

abbrev pub is_higher : Comparison → Bool
is_higher higher = true
is_higher _ = false

-- `catch (error) { throw new ApolloError("INTERNAL_SERVER_ERROR") }`
abbrev pub or_internal_error : Result PackageFile → Result PackageFile
or_internal_error (ok p) = ok p
or_internal_error (err e) = err (thrown "INTERNAL_SERVER_ERROR")

abbrev pub is_empty : List Difference → Bool
is_empty [] = true
is_empty (d ∷ ds) = false

module _ (semver : SemVerPackage) where
  abbrev increase : Compability → semver.SemVer → semver.SemVer
  increase breaking_change copy = semver.inc_major copy
  increase compatible_change copy = semver.inc_minor copy
  increase minor_change copy = semver.inc_patch copy
  increase identical copy = copy

  unfoldable pub next_version : semver.SemVer → Compability → Result semver.SemVer
  next_version current c = do copy ← semver.make (semver.version current); ok (increase c copy)

  -- `new SemVer(value)`, of whatever the uploaded object holds.
  unfoldable pub semver_of : Json → Result semver.SemVer
  semver_of (string s) = semver.make s
  semver_of _ = err type_error

  -- `new SemVer(value.packageFile.version)`
  unfoldable pub proposed_version : Json → Result semver.SemVer
  unfolding read semver_of
  proposed_version raw = read "version" raw >>= semver_of

  unfoldable pub too_low :
      String → semver.SemVer → Compability → semver.SemVer → semver.SemVer → Error
  too_low name latest c min proposed = thrown (
      name
      & " has current version "
      & semver.version latest
      & ", and this new version has "
      & compatibility_to_string c
      & " changes - requiring a minimum version number of "
      & semver.version min
      & ", but you submitted version number "
      & semver.version proposed)

  -- The branches on `compatibility`.
  unfoldable pub decide_by :
      String
      → ℕ
      → ℕ
      → PackageFile
      → List Difference
      → semver.SemVer
      → semver.SemVer
      → semver.SemVer
      → Compability
      → Result (Decision semver.SemVer)
  unfolding too_low
  decide_by name latest_id saved_id new ds latest min proposed identical = ok record {
    change_type = version_trivial_change;
    saved_version = latest_id;
    differences = ds;
    effects = touch_version latest_id ∷ [];
  }
  decide_by name latest_id saved_id new ds latest min proposed c =
      if is_higher (semver.compare min (semver.version proposed))
      then err (too_low name latest c min proposed)
      else ok record {
        change_type = change_type_of c;
        saved_version = saved_id;
        differences = ds;
        effects = save_version saved_id new ∷ [];
      }

  module _ (deep_equal : DeepEqual) (name : String) (answers : Answers) where
    -- `if (latestVersion != null) … else …`
    unfoldable pub decide : Option ℕ → PackageFile → semver.SemVer → Result (Decision semver.SemVer)
    unfolding compare_packages diff_compatibility next_version decide_by
    decide none new proposed = ok record {
      change_type = version_first_version;
      saved_version = answers.saved_id;
      differences = [];
      effects = save_version answers.saved_id new ∷ [];
    }
    decide (some latest_id) new proposed = do
      prior ← or_internal_error answers.stored_package_file
      latest ← semver.make prior.version
      ds ← compare_packages deep_equal prior new
      c ← diff_compatibility ds
      min ← next_version latest c
      decide_by name latest_id answers.saved_id new ds latest min proposed c

    -- `if (latestVersion && diff && diff.length > 0 && …)`
    abbrev pub comparison_effects : Option ℕ → Decision semver.SemVer → List (Effect semver.SemVer)
    comparison_effects none d = []
    comparison_effects (some latest_id) d =
        if not (is_empty d.differences) && not (nat_eq latest_id d.saved_version)
        then save_version_comparison d.saved_version latest_id d.differences ∷ []
        else []

    -- What follows the decision.
    unfoldable pub finish :
        PackageFile
        → Json
        → semver.SemVer
        → Decision semver.SemVer
        → Result (List (Effect semver.SemVer))
    finish new upgraded proposed d = answers.package_found >>= λ found.
        if answers.recalled
        then ok (
            d.effects
            ++ (update_readme_vectors new.readme_markdown
                ∷ create_activity_log (event_type_of d.change_type) d.change_type d.saved_version
                ∷ (comparison_effects answers.latest_version d
                    ++ (write_package_file proposed upgraded ∷ []))))
        else err (thrown "Could not find the version after saving. This should never happen!")

    module _ (parse_float parse_int : String → Number) (as_package_file : Json → PackageFile) where
      unfoldable pub create_or_update_version : Json → Result (List (Effect semver.SemVer))
      unfolding proposed_version upgrade_package_file decide finish
      create_or_update_version raw = do
        proposed ← proposed_version raw
        upgraded ← upgrade_package_file parse_float parse_int raw
        d ← decide answers.latest_version (as_package_file upgraded) proposed
        finish (as_package_file upgraded) upgraded proposed d
