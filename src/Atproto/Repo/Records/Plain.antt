-- ===== src/Atproto/Repo/Records/Plain.antt =====
-- `json_to_plain_ipld` and `json_array_to_ipld` of core/src/atproto/repo.rs. An object is mapped
-- member by member: its members are in key order, which is the order of the map that is collected.
use dais.Base.{Text, bytes, List, [], ◌∷◌, Option, none, some, CoreResult, ok, ◌>>=◌, collect}
use dais.Ipld.{Ipld, Items, Fields, ℤ, pos, of_list}
use dais.Json.{Value, Values, Members}
use dais.Formats.{Formats}
use dais.Atproto.Cbor.{invalid}

module _ {C F N : Type 0} (x : Formats C F N) where
  unfoldable pub integer_u64 : Option (dais.Base.ℕ) → CoreResult (Ipld C F)
  integer_u64 (some n) = ok (Ipld.integer (pos n))
  integer_u64 none = invalid (bytes "floating-point values are not supported in repo export")

  unfoldable pub number_ipld : Option ℤ → Option (dais.Base.ℕ) → CoreResult (Ipld C F)
  number_ipld (some i) u = ok (Ipld.integer i)
  number_ipld none u = integer_u64 u

  unfoldable mutual
    unfolding number_ipld integer_u64

    pub json_to_plain_ipld : Value N → CoreResult (Ipld C F)
    json_to_plain_ipld Value.null = ok Ipld.null
    json_to_plain_ipld (Value.bool b) = ok (Ipld.bool b)
    json_to_plain_ipld (Value.number n) = number_ipld (x.as_i64 n) (x.as_u64 n)
    json_to_plain_ipld (Value.string s) = ok (Ipld.string s)
    json_to_plain_ipld (Value.array vs) = items_to_ipld vs >>= λ items. ok (Ipld.list items)
    json_to_plain_ipld (Value.object m) = members_to_ipld m >>= λ fields. ok (Ipld.dict fields)

    pub items_to_ipld : Values N → CoreResult (Items C F)
    items_to_ipld Values.nil = ok Items.nil
    items_to_ipld (Values.cons v rest) =
        json_to_plain_ipld v >>= λ item. items_to_ipld rest >>= λ items. ok (Items.cons item items)

    pub members_to_ipld : Members N → CoreResult (Fields C F)
    members_to_ipld Members.end = ok Fields.end
    members_to_ipld (Members.member k v rest) = json_to_plain_ipld v >>= λ value.
        members_to_ipld rest >>= λ fields. ok (Fields.field k value fields)

  unfoldable pub json_array_to_ipld : List (Value N) → CoreResult (Ipld C F)
  json_array_to_ipld values = do
    items ← collect json_to_plain_ipld values
    ok (Ipld.list (of_list items))
