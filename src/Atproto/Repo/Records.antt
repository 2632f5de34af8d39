-- ===== src/Atproto/Repo/Records.antt =====
-- core/src/atproto/repo.rs: a record's JSON as the DAG-CBOR value that the repository stores.
pub mod Plain
use dais.Base.{
  ℕ, Text, Bytes, bytes, List, [], ◌∷◌, ◌++◌, Option, none, some, Bool, true, false, CoreResult,
  invalid_at_proto, ok, err, map_err, ok_or, collect, text_eq, not, ◌||◌, if◌then◌else◌, ◌>>=◌,
  ◌>>◌,
}
use mathlib.Core.Option
use dais.Ipld.{Ipld, ℤ, pos, of_list}
use dais.Json.{Value, Members, get, get_member, as_str, as_array, as_object, or_default}
use dais.Formats.{Formats}
use dais.Atproto.Cbor.{invalid, map_ipld, dag_cbor_bytes, dag_cbor_cid}
use dais.Atproto.Tree.{RepoRecordBlock}
use dais.Atproto.Repo.Records.Plain.{json_to_plain_ipld, json_array_to_ipld}

-- `filter_map(Value::as_str)`, each as a string of DAG-CBOR.
strings_of : {C F N : Type 0} → List (Value N) → List (Ipld C F)
strings_of [] = []
strings_of (v ∷ rest) = elim (as_str (some v)) [
  | none ↦ strings_of rest
  | some s ↦ Ipld.string s ∷ strings_of rest
]

-- `.get(key).and_then(Value::as_str).unwrap_or_default()`, on a value and on an object's members.
text_of : {N : Type 0} → Text → Value N → Text
text_of key v = or_default (as_str (get key v)) []

member_text : {N : Type 0} → Text → Members N → Text
member_text key m = or_default (as_str (get_member key m)) []

-- `if let Some(v) = o { entries.push((key, f(v)?)); }`
push_some :
    {A C F : Type 0}
    → Text
    → (A → CoreResult (Ipld C F))
    → Option A
    → List (Text × Ipld C F)
    → CoreResult (List (Text × Ipld C F))
push_some key f none entries = ok entries
push_some key f (some v) entries = do value ← f v; ok (entries ++ (key, value) ∷ [])

module _ {C F N : Type 0} (x : Formats C F N) where
  unfoldable pub stable_cid : Text → Text
  stable_cid value = x.cid_text (x.new_v1 0x55 (x.multihash value))

  -- The error of a fallback that does not parse names the value given first.
  link_fallback : Text → Text → CoreResult (Ipld C F)
  link_fallback value seed =
      map_err (λ e. invalid_at_proto (bytes "invalid cid '" ++ value ++ bytes "': " ++ e))
        (x.parse_cid (stable_cid seed))
      >>= λ cid. ok (Ipld.link cid)

  unfoldable pub cid_link_or_fallback : Text → Text → CoreResult (Ipld C F)
  unfolding link_fallback
  cid_link_or_fallback value fallback_seed = elim (x.parse_cid value) [
    | ok cid ↦ ok (Ipld.link cid)
    | err e ↦ link_fallback value fallback_seed
  ]

  unfoldable pub profile_record_ipld : Value N → CoreResult (Ipld C F)
  unfolding push_some
  profile_record_ipld value = do
    let entries = (bytes "$type", Ipld.string (bytes "app.bsky.actor.profile")) ∷ []
    entries ←
        push_some (bytes "displayName") (λ s. ok (Ipld.string s))
          (as_str (get (bytes "displayName") value)) entries
    entries ←
        push_some (bytes "description") (λ s. ok (Ipld.string s))
          (as_str (get (bytes "description") value)) entries
    ok (map_ipld entries)

  unfoldable pub strong_ref_ipld : Members N → CoreResult (Ipld C F)
  unfolding member_text
  strong_ref_ipld value = do
    let uri = member_text (bytes "uri") value
    cid ← cid_link_or_fallback (member_text (bytes "cid") value) uri
    ok (map_ipld ((bytes "uri", Ipld.string uri) ∷ (bytes "cid", cid) ∷ []))

  unfoldable pub reply_ref_ipld : Members N → CoreResult (Ipld C F)
  reply_ref_ipld value = do
    root ←
        ok_or (invalid_at_proto (bytes "reply.root is required"))
          (as_object (get_member (bytes "root") value))
    parent ←
        ok_or (invalid_at_proto (bytes "reply.parent is required"))
          (as_object (get_member (bytes "parent") value))
    root_ref ← strong_ref_ipld root
    parent_ref ← strong_ref_ipld parent
    ok (map_ipld ((bytes "root", root_ref) ∷ (bytes "parent", parent_ref) ∷ []))

  or_zero : Option ℕ → ℕ
  or_zero none = 0
  or_zero (some n) = n

  -- `.and_then(Value::as_u64).unwrap_or_default()`
  u64_or_zero : Option (Value N) → ℕ
  unfolding or_zero
  u64_or_zero (some (Value.number n)) = or_zero (x.as_u64 n)
  u64_or_zero o = 0

  -- One image of an embed, with the blob that it names.
  image_ipld : Members N → Members N → CoreResult (Ipld C F)
  unfolding member_text u64_or_zero
  image_ipld image blob = do
    let link =
        as_str
          (Option.bind (as_object (get_member (bytes "ref") blob)) (get_member (bytes "$link")))
    ref ←
        cid_link_or_fallback (or_default link [])
          (or_default (as_str (get_member (bytes "alt") image)) (bytes "blob"))
    let size = u64_or_zero (get_member (bytes "size") blob)
    ok (
        map_ipld (
          (bytes "alt", Ipld.string (member_text (bytes "alt") image))
          ∷ (
            bytes "image",
            map_ipld (
                (bytes "$type", Ipld.string (bytes "blob"))
                ∷ (bytes "ref", ref)
                ∷ (
                  bytes "mimeType",
                  Ipld.string (
                      or_default (as_str (get_member (bytes "mimeType") blob)) (bytes "image/png")),
                )
                ∷ (bytes "size", Ipld.integer (pos size))
                ∷ []),
          )
          ∷ []))

  embed_image : Value N → CoreResult (Ipld C F)
  unfolding image_ipld
  embed_image value = do
    image ←
        ok_or (invalid_at_proto (bytes "embed image must be an object")) (as_object (some value))
    blob ←
        ok_or (invalid_at_proto (bytes "embed image blob is required"))
          (as_object (get_member (bytes "image") image))
    image_ipld image blob

  is_text : Option Text → Text → Bool
  is_text none s = false
  is_text (some t) s = text_eq t s

  unfoldable pub embed_ipld : Members N → CoreResult (Ipld C F)
  unfolding embed_image is_text
  embed_ipld value =
      if not (is_text (as_str (get_member (bytes "$type") value)) (bytes "app.bsky.embed.images"))
      then invalid (bytes "only image embeds are supported in repo export")
      else (do
        images ←
            ok_or (invalid_at_proto (bytes "embed.images must be an array"))
              (as_array (get_member (bytes "images") value))
        items ← collect embed_image images
        ok (
            map_ipld (
              (bytes "$type", Ipld.string (bytes "app.bsky.embed.images"))
              ∷ (bytes "images", Ipld.list (of_list items))
              ∷ [])))

  unfoldable pub post_record_ipld : Value N → CoreResult (Ipld C F)
  unfolding push_some text_of strings_of
  post_record_ipld value = do
    let entries =
        (bytes "$type", Ipld.string (bytes "app.bsky.feed.post"))
        ∷ (bytes "text", Ipld.string (text_of (bytes "text") value))
        ∷ (bytes "createdAt", Ipld.string (text_of (bytes "createdAt") value))
        ∷ []
    entries ←
        push_some (bytes "langs") (λ l. ok (Ipld.list (of_list (strings_of l))))
          (as_array (get (bytes "langs") value)) entries
    entries ←
        push_some (bytes "facets") (json_array_to_ipld x) (as_array (get (bytes "facets") value))
          entries
    entries ←
        push_some (bytes "tags") (λ l. ok (Ipld.list (of_list (strings_of l))))
          (as_array (get (bytes "tags") value)) entries
    entries ← push_some (bytes "labels") (json_to_plain_ipld x) (get (bytes "labels") value) entries
    entries ←
        push_some (bytes "reply") reply_ref_ipld (as_object (get (bytes "reply") value)) entries
    entries ← push_some (bytes "embed") embed_ipld (as_object (get (bytes "embed") value)) entries
    ok (map_ipld entries)

  unfoldable pub subject_record_ipld : Value N → Text → CoreResult (Ipld C F)
  unfolding member_text text_of
  subject_record_ipld value record_type = do
    subject ←
        ok_or (invalid_at_proto (bytes "subject is required"))
          (as_object (get (bytes "subject") value))
    let subject_uri = member_text (bytes "uri") subject
    cid ← cid_link_or_fallback (member_text (bytes "cid") subject) subject_uri
    ok (
        map_ipld (
          (bytes "$type", Ipld.string record_type)
          ∷ (
            bytes "subject",
            map_ipld ((bytes "uri", Ipld.string subject_uri) ∷ (bytes "cid", cid) ∷ []),
          )
          ∷ (bytes "createdAt", Ipld.string (text_of (bytes "createdAt") value))
          ∷ []))

  unfoldable pub follow_record_ipld : Value N → CoreResult (Ipld C F)
  unfolding text_of
  follow_record_ipld value = ok (
      map_ipld (
        (bytes "$type", Ipld.string (bytes "app.bsky.graph.follow"))
        ∷ (bytes "subject", Ipld.string (text_of (bytes "subject") value))
        ∷ (bytes "createdAt", Ipld.string (text_of (bytes "createdAt") value))
        ∷ []))

  unfoldable pub record_value_to_ipld : Value N → CoreResult (Ipld C F)
  record_value_to_ipld value = do
    record_type ←
        ok_or (invalid_at_proto (bytes "record is missing $type"))
          (as_str (get (bytes "$type") value))
    if text_eq record_type (bytes "app.bsky.actor.profile")
        then profile_record_ipld value
        else if text_eq record_type (bytes "app.bsky.feed.post")
        then post_record_ipld value
        else if text_eq record_type (bytes "app.bsky.feed.like")
            || text_eq record_type (bytes "app.bsky.feed.repost")
        then subject_record_ipld value record_type
        else if text_eq record_type (bytes "app.bsky.graph.follow")
        then follow_record_ipld value
        else invalid (bytes "unsupported record type for repo export: " ++ record_type)
