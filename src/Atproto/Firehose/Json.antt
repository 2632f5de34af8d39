-- ===== src/Atproto/Firehose/Json.antt =====
-- `record_bytes_to_json` and `ipld_to_json` of core/src/atproto/firehose.rs. A map is turned field
-- by field: its keys are in order, which is the order of the JSON map that is collected.
use dais.Base.{
  ℕ, zero, suc, ◌+◌, ◌/◌, ◌%◌, ◌^◌, Text, Bytes, bytes, [], ◌∷◌, ◌++◌, Option, Bool, CoreResult,
  invalid_at_proto, ok, map_err, ok_or, ltb, if◌then◌else◌, ◌>>=◌,
}
use dais.Ipld.{Ipld, Items, Fields, ℤ, pos, negsuc}
use dais.Json.{Value, Values, Members}
use dais.Formats.{Formats}
use dais.Atproto.Cbor.{invalid}

-- `Display` of an `i128`, which has 39 digits at most.
unfoldable pub digits_of : ℕ → ℕ → Text
digits_of zero n = []
digits_of (suc fuel) n =
    let more = digits_of fuel (n / 10) in
    let last : Text = (n % 10 + 48) ∷ [] in if ltb n 10 then last else more ++ last

unfoldable pub show_int : ℤ → Text
unfolding digits_of
show_int (pos n) = digits_of 40 n
show_int (negsuc n) = bytes "-" ++ digits_of 40 (n + 1)

unfoldable pub fits_i64 : ℤ → Bool
fits_i64 (pos n) = ltb n (2 ^ 63)
fits_i64 (negsuc n) = ltb n (2 ^ 63)

module _ {C F N : Type 0} (x : Formats C F N) where
  unfoldable pub integer_json : ℤ → CoreResult (Value N)
  integer_json i =
      if fits_i64 i
      then ok (Value.number (x.from_i64 i))
      else invalid (bytes "record integer " ++ show_int i ++ bytes " is out of i64 range")

  float_json : Option N → CoreResult (Value N)
  float_json o =
      ok_or (invalid_at_proto (bytes "record float is not finite")) o >>= λ n. ok (Value.number n)

  unfoldable mutual
    unfolding integer_json float_json fits_i64 show_int digits_of

    pub ipld_to_json : Ipld C F → CoreResult (Value N)
    ipld_to_json Ipld.null = ok Value.null
    ipld_to_json (Ipld.bool b) = ok (Value.bool b)
    ipld_to_json (Ipld.integer i) = integer_json i
    ipld_to_json (Ipld.float f) = float_json (x.from_f64 f)
    ipld_to_json (Ipld.string s) = ok (Value.string s)
    ipld_to_json (Ipld.raw b) = ok (Value.string (x.base64 b))
    ipld_to_json (Ipld.list l) = items_to_json l >>= λ vs. ok (Value.array vs)
    ipld_to_json (Ipld.dict m) = fields_to_json m >>= λ ms. ok (Value.object ms)
    ipld_to_json (Ipld.link c) = ok (Value.string (x.cid_text c))

    pub items_to_json : Items C F → CoreResult (Values N)
    items_to_json Items.nil = ok Values.nil
    items_to_json (Items.cons v l) =
        ipld_to_json v >>= λ j. items_to_json l >>= λ js. ok (Values.cons j js)

    pub fields_to_json : Fields C F → CoreResult (Members N)
    fields_to_json Fields.end = ok Members.end
    fields_to_json (Fields.field k v m) =
        ipld_to_json v >>= λ j. fields_to_json m >>= λ js. ok (Members.member k j js)

  unfoldable pub record_bytes_to_json : Bytes → CoreResult (Value N)
  record_bytes_to_json b = do
    ipld ← map_err (λ e. invalid_at_proto (bytes "record is not DAG-CBOR: " ++ e)) (x.from_slice b)
    ipld_to_json ipld
