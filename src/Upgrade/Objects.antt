-- ===== src/Upgrade/Objects.antt =====
-- What lib/src/PackageUtil.ts does with objects of which it knows little: reading and writing
-- members, and loops that write back. In strict mode a write to a primitive value throws. An array
-- stands where the code takes it for one; its members by name and as an object are left out.
use Prim.Native.Nat.{◌+◌, ◌-◌}
use Prim.Native.String.{len, slice}
use text.Mathlib.Text.{find?}
use datapm.Common.{
  ◌&◌, String, Bool, true, false, none, some, ◌==◌, ◌&&◌, leb, Result, ok, err, type_error, ◌>>=◌,
}
use datapm.PackageFile.Json.{
  Json, undefined, null, boolean, number, string, array, object, Items, empty, item, Members, end,
  member, get, put, delete,
}

-- `v.k`
unfoldable pub read : String → Json → Result Json
unfolding get
read k undefined = err type_error
read k null = err type_error
read k (object m) = ok (get k m)
read k _ = ok undefined

-- `v?.k`
unfoldable pub read_optional : String → Json → Json
unfolding get
read_optional k (object m) = get k m
read_optional k _ = undefined

-- `v.k = w`
unfoldable pub assign : String → Json → Json → Result Json
unfolding put
assign k w (object m) = ok (object (put k w m))
assign k w _ = err type_error

-- `delete v.k`
unfoldable pub remove : String → Json → Result Json
unfolding delete
remove k undefined = err type_error
remove k null = err type_error
remove k (object m) = ok (object (delete k m))
remove k v = ok v

-- The characters of a string, as the values of a loop over it.
abbrev characters : String → Items
characters String.[] = empty
characters (String.◌∷◌ c s) = item (string (String.◌∷◌ c "")) (characters s)

-- A loop over items that changes each in place.
unfoldable pub for_items : (Json → Result Json) → Items → Result Items
for_items f empty = ok empty
for_items f (item v vs) = do v' ← f v; vs' ← for_items f vs; ok (item v' vs')

-- `for (const x of v)`
unfoldable pub for_of : (Json → Result Json) → Json → Result Json
unfolding for_items
for_of f (array vs) = do vs' ← for_items f vs; ok (array vs')
for_of f (string s) = do chars ← for_items f (characters s); ok (string s)
for_of f _ = err type_error

unfoldable pub for_members : (Json → Result Json) → Members → Result Members
for_members f end = ok end
for_members f (member k v m) = do v' ← f v; m' ← for_members f m; ok (member k v' m')

-- `for (const k in o)` with `o[k]` changed in place.
unfoldable pub for_in : (Json → Result Json) → Json → Result Json
unfolding for_members
for_in f (object m) = do m' ← for_members f m; ok (object m')
for_in f v = ok v

-- What a loop has changed stands where it stood; an absent member stays absent.
unfoldable pub write_back : String → Json → Json → Json → Result Json
unfolding assign
write_back k undefined new v = ok v
write_back k old new v = assign k new v

-- A loop over `v.k`, which changes it in place.
unfoldable pub modify : String → (Json → Result Json) → Json → Result Json
unfolding read write_back
modify k f v = do old ← read k v; new ← f old; write_back k old new v

abbrev pub is_text : String → Json → Bool
is_text s (string t) = t == s
is_text s _ = false

-- `"" + v`
unfoldable mutual
  pub to_text : Json → String
  to_text undefined = "undefined"
  to_text null = "null"
  to_text (boolean true) = "true"
  to_text (boolean false) = "false"
  to_text (number n) = n.text
  to_text (string s) = s
  to_text (array vs) = join_items vs
  to_text (object m) = "[object Object]"

  join_items : Items → String
  join_items empty = ""
  join_items (item v vs) = element v & join_rest vs

  join_rest : Items → String
  join_rest empty = ""
  join_rest (item v vs) = "," & element v & join_rest vs

  -- null and undefined elements are joined as empty texts.
  element : Json → String
  element undefined = ""
  element null = ""
  element (boolean true) = "true"
  element (boolean false) = "false"
  element (number n) = n.text
  element (string s) = s
  element (array vs) = join_items vs
  element (object m) = "[object Object]"

-- `s.endsWith(t)`
unfoldable pub ends_with : String → String → Bool
ends_with s t = leb (len t) (len s) && slice s (len s - len t) (len s) == t

-- `s.replace(a, b)`, for a `b` without `$`.
unfoldable pub replace : String → String → String → String
replace s a b = elim (find? s a) [
  | none ↦ s
  | some i ↦ slice s 0 i & b & slice s (i + len a) (len s)
]
