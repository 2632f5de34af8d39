-- ===== src/Ipld/Dict.antt =====
-- `BTreeMap<String, Ipld>` as the code uses it: `insert` keeps the keys in ascending order, and
-- `get` finds a key. Lists of values pass between `Items` and the library's lists.
use dais.Base.{
  Text, List, [], ◌∷◌, Option, none, some, ◌≡◌, refl, ap, lt, eq, gt, text_eq, text_cmp,
  text_eq_iff, text_cmp-eq, text_cmp_refl, if◌then◌else◌, arith,
}
use dais.Ipld.Defs.{Ipld, Items, Fields, nil, cons, end, field}

module _ {C F : Type 0} where
  unfoldable pub get : Text → Fields C F → Option (Ipld C F)
  get key end = none
  get key (field k v rest) = if text_eq k key then some v else get key rest

  unfoldable pub insert : Text → Ipld C F → Fields C F → Fields C F
  insert key value end = field key value end
  insert key value (field k v rest) = elim (text_cmp key k) [
    | lt ↦ field key value (field k v rest)
    | eq ↦ field key value rest
    | gt ↦ field k v (insert key value rest)
  ]

  -- The map after an insertion: the new value at its key, and all else as before.
  pub get-insert :
      (key k : Text) (value : Ipld C F) (m : Fields C F)
      → get k (insert key value m) ≡ (if text_eq key k then some value else get k m)
  unfolding get insert
  get-insert key k value end = refl
  get-insert key k value (field j v rest) = ground (
    arith,
    text_eq_iff key k,
    text_eq_iff j k,
    text_eq_iff key j,
    text_cmp_refl key,
    text_cmp-eq key j,
    get-insert key k value rest,
  )

  -- The loop of `map_ipld`.
  unfoldable pub insert_all : List (Text × Ipld C F) → Fields C F → Fields C F
  insert_all [] m = m
  insert_all ((key, value) ∷ rest) m = insert_all rest (insert key value m)

  unfoldable pub to_list : Items C F → List (Ipld C F)
  to_list nil = []
  to_list (cons v rest) = v ∷ to_list rest

  unfoldable pub of_list : List (Ipld C F) → Items C F
  of_list [] = nil
  of_list (v ∷ rest) = cons v (of_list rest)

  pub to_list-of_list : (l : List (Ipld C F)) → to_list (of_list l) ≡ l
  unfolding to_list of_list
  to_list-of_list [] = refl
  to_list-of_list (v ∷ rest) = ap (λ t. v ∷ t) (to_list-of_list rest)
