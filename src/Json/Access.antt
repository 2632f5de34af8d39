-- ===== src/Json/Access.antt =====
-- `Value::get`, `as_str`, `as_array`, `as_object`, and `unwrap_or_default` on a string.
use dais.Base.{Text, List, [], ◌∷◌, Option, none, some, text_eq, if◌then◌else◌}
use dais.Json.Defs.{Value, Values, Members, string, array, object, nil, cons, end, member}

module _ {N : Type 0} where
  -- `Map::get`
  unfoldable pub get_member : Text → Members N → Option (Value N)
  get_member key end = none
  get_member key (member k v rest) = if text_eq k key then some v else get_member key rest

  -- `Value::get`: a value that is no object has no members.
  unfoldable pub get : Text → Value N → Option (Value N)
  unfolding get_member
  get key (object m) = get_member key m
  get key v = none

  list_of : Values N → List (Value N)
  list_of nil = []
  list_of (cons v rest) = v ∷ list_of rest

  unfoldable pub as_str : Option (Value N) → Option Text
  as_str (some (string s)) = some s
  as_str o = none

  unfoldable pub as_array : Option (Value N) → Option (List (Value N))
  unfolding list_of
  as_array (some (array vs)) = some (list_of vs)
  as_array o = none

  unfoldable pub as_object : Option (Value N) → Option (Members N)
  as_object (some (object m)) = some m
  as_object o = none

abbrev pub or_default : Option Text → Text → Text
or_default none d = d
or_default (some s) d = s
