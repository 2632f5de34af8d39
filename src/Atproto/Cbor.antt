-- ===== src/Atproto/Cbor.antt =====
-- The DAG-CBOR helpers of core/src/atproto/repo.rs, and the readers of one field of a decoded map
-- that the decoders of core/src/atproto repeat.
use dais.Base.{
  Text, Bytes, bytes, List, ◌++◌, Option, none, some, CoreResult, invalid_at_proto, serialization,
  ok, err, map_err, ◌≡◌, ap, Result-cases, inl, inr,
}
use dais.Ipld.{Ipld, Fields, string, raw, list, dict, link, end, get, insert_all, Items}
use dais.Formats.{Formats, IsLawful}

-- `CoreError::InvalidAtProto` of a literal.
abbrev pub invalid {ℓ} : {A : Type ℓ} → Text → CoreResult A
invalid message = err (invalid_at_proto message)

module _ {C F : Type 0} where
  unfoldable pub map_ipld : List (Text × Ipld C F) → Ipld C F
  unfolding insert_all
  map_ipld entries = dict (insert_all entries end)

module _ {C F N : Type 0} (x : Formats C F N) where
  unfoldable pub dag_cbor_cid : Bytes → C
  dag_cbor_cid b = x.new_v1 0x71 (x.multihash b)

  unfoldable pub dag_cbor_bytes : Ipld C F → CoreResult Bytes
  dag_cbor_bytes v =
      map_err (λ e. serialization (bytes "dag-cbor encode failed: " ++ e)) (x.to_vec v)

-- `match fields.get(key) { Some(Ipld::String(s)) => s.clone(), _ => return Err(..) }`, and the same
-- for the other constructors.
module _ {C F : Type 0} where
  string_or : Text → Option (Ipld C F) → CoreResult Text
  string_or message (some (string s)) = ok s
  string_or message o = invalid message

  link_or : Text → Option (Ipld C F) → CoreResult C
  link_or message (some (link c)) = ok c
  link_or message o = invalid message

  raw_or : Text → Option (Ipld C F) → CoreResult Bytes
  raw_or message (some (raw b)) = ok b
  raw_or message o = invalid message

  list_or : Text → Option (Ipld C F) → CoreResult (Items C F)
  list_or message (some (list l)) = ok l
  list_or message o = invalid message

  link_if : Option (Ipld C F) → Option C
  link_if (some (link c)) = some c
  link_if o = none

  unfoldable pub require_string : Text → Text → Fields C F → CoreResult Text
  unfolding string_or
  require_string key message fields = string_or message (get key fields)

  unfoldable pub require_link : Text → Text → Fields C F → CoreResult C
  unfolding link_or
  require_link key message fields = link_or message (get key fields)

  unfoldable pub require_raw : Text → Text → Fields C F → CoreResult Bytes
  unfolding raw_or
  require_raw key message fields = raw_or message (get key fields)

  unfoldable pub require_list : Text → Text → Fields C F → CoreResult (Items C F)
  unfolding list_or
  require_list key message fields = list_or message (get key fields)

  -- `match fields.get(key) { Some(Ipld::Link(cid)) => Some(*cid), _ => None }`
  unfoldable pub optional_link : Text → Fields C F → Option C
  unfolding link_if
  optional_link key fields = link_if (get key fields)

  -- `let Ipld::Map(fields) = value else { return Err(..) }`
  unfoldable pub require_map : Text → Ipld C F → CoreResult (Fields C F)
  require_map message (dict fields) = ok fields
  require_map message v = invalid message

-- What was encoded is decoded, and two values of one encoding are one value.
module _ {C F N : Type 0} (x : Formats C F N) (laws : IsLawful x) where
  pub from_slice-dag_cbor_bytes :
      (v : Ipld C F) (b : Bytes) → dag_cbor_bytes x v ≡ ok b → x.from_slice b ≡ ok v
  unfolding dag_cbor_bytes
  from_slice-dag_cbor_bytes v b h = elim (Result-cases (x.to_vec v)) [
    | inl (b', e) ↦ cc (
      laws.from_slice-to_vec v b' e,
      ap (map_err (λ m. serialization (bytes "dag-cbor encode failed: " ++ m))) e,
    )
    | inr (m, e) ↦
        cc (ap (map_err (λ m'. serialization (bytes "dag-cbor encode failed: " ++ m'))) e)
  ]
