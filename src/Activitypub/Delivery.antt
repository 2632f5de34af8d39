-- ===== src/Activitypub/Delivery.antt =====
-- core/src/activitypub/delivery.rs: which inboxes a post is queued for, and what becomes of a delivery.
mod Hosts
mod Posting
mod Maps
mod Carried
mod Covering
mod Acceptance
mod Toy
mod Tests
use dais.Base.{
  ℕ, ◌+◌, ◌%◌, ◌^◌, Text, bytes, List, [], ◌∷◌, Option, none, some, Bool, not, leb, if◌then◌else◌,
}
use dais.Ipld.{pos}
use dais.Json.{Value, Members, get_member, as_str}
use dais.Formats.{Formats}
use dais.Store.{Store, Exec, pure, reads, gets, perform, query, ◌>>=◌, ◌>>◌}
use dais.Activitypub.Federation.{Urls, is_federation_host_allowed}
use dais.Activitypub.Types.{Services}

abbrev pub select_inboxes : Text
select_inboxes =
    bytes
      "\n        SELECT DISTINCT COALESCE(follower_shared_inbox, follower_inbox) AS follower_inbox\n        FROM followers\n        WHERE actor_id = ?1 AND status = 'approved'\n    "

abbrev pub insert_delivery : Text
insert_delivery =
    bytes
      "\n            INSERT INTO deliveries (\n                id, post_id, target_type, target_url, protocol,\n                status, retry_count, created_at\n            ) VALUES (?1, ?2, 'inbox', ?3, 'activitypub', 'queued', 0, ?4)\n        "

abbrev pub set_delivered : Text
set_delivered =
    bytes
      "\n            UPDATE deliveries\n            SET status = 'delivered', delivered_at = ?1, last_attempt_at = ?2\n            WHERE id = ?3\n        "

abbrev pub set_failed : Text
set_failed =
    bytes
      "\n            UPDATE deliveries\n            SET status = ?1, retry_count = ?2, last_attempt_at = ?3, error_message = ?4\n            WHERE id = ?5\n        "

-- `map(Value::String).unwrap_or(Value::Null)`
text_or_null : {N : Type 0} → Option Text → Value N
text_or_null none = Value.null
text_or_null (some t) = Value.string t

with_inbox : Option Text → List Text → List Text
with_inbox none inboxes = inboxes
with_inbox (some inbox) inboxes = inbox ∷ inboxes

inboxes_of : {N : Type 0} → List (Members N) → List Text
unfolding with_inbox
inboxes_of [] = []
inboxes_of (row ∷ rows) =
    with_inbox (as_str (get_member (bytes "follower_inbox") row)) (inboxes_of rows)

module _ {C F N : Type 0} (x : Formats C F N) (store : Store N) (s : Services F N) where
  unfoldable pub get_follower_inboxes : Text → Exec N (List Text)
  unfolding inboxes_of
  get_follower_inboxes actor_id = do
    rows ← query store select_inboxes (Value.string actor_id ∷ [])
    pure (inboxes_of rows)

  -- `retry_count` is a `u32`, which wraps.
  unfoldable pub update_delivery_status : Text → Bool → Option Text → ℕ → Exec N (Unit {0})
  unfolding text_or_null
  update_delivery_status delivery_id success error_message retry_count = do
    now ← gets s.now_rfc3339
    if success
        then perform store set_delivered
            (Value.string now ∷ Value.string now ∷ Value.string delivery_id ∷ [])
        else perform store set_failed (
            Value.string (if leb 3 retry_count then bytes "failed" else bytes "retry")
            ∷ Value.number (x.from_i64 (pos ((retry_count + 1) % 2 ^ 32)))
            ∷ Value.string now
            ∷ text_or_null error_message
            ∷ Value.string delivery_id
            ∷ [])

  unfoldable pub queue_delivery : Text → Text → Exec N Text
  queue_delivery post_id inbox_url = do
    delivery_id ← gets s.generate_uuid
    created_at ← gets s.now_rfc3339
    perform store insert_delivery (
        Value.string delivery_id
        ∷ Value.string post_id
        ∷ Value.string inbox_url
        ∷ Value.string created_at
        ∷ [])
    pure delivery_id

  module _ {U : Type 0} (urls : Urls U) where
    -- The loop over the inboxes, with the identifiers of the deliveries that are queued.
    unfoldable pub queue_deliveries : Text → List Text → Exec N (List Text)
    queue_deliveries post_id [] = pure []
    queue_deliveries post_id (inbox_url ∷ more) =
        let rest = queue_deliveries post_id more in
        reads store (λ db. is_federation_host_allowed x db urls inbox_url) >>= λ allowed.
        if not allowed then rest else (do
          delivery_id ← queue_delivery post_id inbox_url
          delivery_ids ← rest
          pure (delivery_id ∷ delivery_ids))

    unfoldable pub create_follower_deliveries : Text → Text → Exec N (List Text)
    create_follower_deliveries post_id actor_id =
        get_follower_inboxes actor_id >>= queue_deliveries post_id
