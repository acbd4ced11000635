-- ===== src/PackageFile/Json.antt =====
-- The values of the language that JSON text stands for, with `undefined`. A package file of an
-- older schema version is such a value, and DPMConfiguration objects are.
use datapm.Common.{String, Bool, true, false, ◌==◌, ◌≡◌, refl, arith, if◌then◌else◌, eq_iff, ◌||◌}

-- A number, by the text that `toString` gives: the program only copies it and tests it for 0.
pub record Number : Type 0 where
  pub text : String

mutual
  pub data Json : Type 0 where
    undefined null : Json
    boolean : Bool → Json
    number : Number → Json
    string : String → Json
    array : Items → Json
    object : Members → Json

  pub data Items : Type 0 where
    empty : Items
    item : Json → Items → Items

  -- The members of an object, in the order of `Object.keys`.
  pub data Members : Type 0 where
    end : Members
    member : String → Json → Members → Members

-- `o[k]`
unfoldable pub get : String → Members → Json
get k end = undefined
get k (member j v m) = if j == k then v else get k m

-- `o[k] = v`: a new key comes last.
unfoldable pub put : String → Json → Members → Members
put k v end = member k v end
put k v (member j w m) = if j == k then member j v m else member j w (put k v m)

-- `delete o[k]`
unfoldable pub delete : String → Members → Members
delete k end = end
delete k (member j w m) = let rest = delete k m in if j == k then rest else member j w rest

-- `v == null`
abbrev pub is_null : Json → Bool
is_null undefined = true
is_null null = true
is_null _ = false

-- `!v`
abbrev pub falsy : Json → Bool
falsy undefined = true
falsy null = true
falsy (boolean true) = false
falsy (boolean false) = true
falsy (number n) = n.text == "0" || n.text == "NaN"
falsy (string s) = s == ""
falsy (array vs) = false
falsy (object m) = false

pub get-put :
    (k j : String) (v : Json) (m : Members) → get j (put k v m) ≡ (if k == j then v else get j m)
unfolding get put
get-put k j v end = refl
get-put k j v (member i w m) = ground (arith, eq_iff k j, eq_iff i k, eq_iff i j, get-put k j v m)

pub get-delete :
    (k j : String) (m : Members) → get j (delete k m) ≡ (if k == j then undefined else get j m)
unfolding get delete
get-delete k j end = ground arith
get-delete k j (member i w m) = ground (arith, eq_iff k j, eq_iff i k, eq_iff i j, get-delete k j m)
