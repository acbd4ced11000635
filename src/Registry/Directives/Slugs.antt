-- ===== src/Registry/Directives/Slugs.antt =====
-- backend/src/directive: what the directives share, the choice of the slug among the arguments of a
-- field and the refusal of a request.
use datapm.Common.{
  String, Bool, true, false, ◌==◌, Option, none, some, ◌≡◌, refl, err, thrown, if◌then◌else◌,
}
use datapm.PackageFile.Json.{Number}
use datapm.Registry.Calls.{Context, Sessions, Call, return, throw, ◌>>=◌}

-- The arguments of a field in which a slug may stand: by itself, or as the member of an object.
pub record Args : Type 0 where
  pub slug : Option String
  pub value : Option (Option String)
  pub identifier : Option (Option String)
  pub own_identifier : Option (Option String)

-- `a || b`
abbrev pub or_else : Option String → Option String → Option String
or_else none b = b
or_else (some a) b = if a == "" then b else some a

-- `object && object.member`
abbrev pub member : Option (Option String) → Option String
member none = none
member (some m) = m

unfoldable pub chosen_slug : Args → Option String
chosen_slug args = or_else args.slug (
    or_else (member args.value)
      (or_else (member args.identifier) (or_else (member args.own_identifier) none)))

abbrev pub refusal : Option Number → String
refusal none = "NOT_AUTHENTICATED"
refusal (some user_id) = "NOT_AUTHORIZED"

-- `true` where the permission is there, and the refusal of the request otherwise.
abbrev pub or_refuse : Context → Bool → Call Bool
or_refuse context true = return true
or_refuse context false = throw (refusal context.me)

module _ {A : Type 0} where
  -- What a guarded resolver comes to: it runs, or the request is refused.
  abbrev pub run_if : Bool → Context → Call A → Call A
  run_if granted context resolve s =
      if granted then resolve s else (err (thrown (refusal context.me)), s)

  pub or_refuse-then :
      (context : Context) (resolve : Call A) (s : Sessions) (b : Bool)
      → (or_refuse context b >>= λ _. resolve) s ≡ run_if b context resolve s
  or_refuse-then context resolve s true = refl
  or_refuse-then context resolve s false = refl
