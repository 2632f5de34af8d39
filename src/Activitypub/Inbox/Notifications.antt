-- ===== src/Activitypub/Inbox/Notifications.antt =====
-- `create_notification` of core/src/activitypub/inbox.rs.
use dais.Base.{Text, [], ◌∷◌, Option, none, some}
use dais.Json.{Value}
use dais.Store.{Store, Exec, gets, perform, ◌>>=◌}
use dais.Activitypub.Types.{Services}
use dais.Activitypub.Inbox.Queries.{insert_notification}
use dais.Activitypub.Inbox.Actors.{ActorInfo}

-- `map(Value::String).unwrap_or(Value::Null)`
unfoldable pub string_or_null : {N : Type 0} → Option Text → Value N
string_or_null none = Value.null
string_or_null (some t) = Value.string t

module _ {F N : Type 0} (store : Store N) (s : Services F N) where
  unfoldable pub create_notification :
      Text → Text → ActorInfo → Option Text → Option Text → Option Text → Exec N (Unit {0})
  create_notification notification_type actor_id
        (actor_username, actor_display_name, actor_avatar_url) post_id reply_id content =
      do
        id ← gets s.generate_uuid
        created_at ← gets s.now_rfc3339
        perform store insert_notification (
            Value.string id
            ∷ Value.string notification_type
            ∷ Value.string actor_id
            ∷ Value.string actor_username
            ∷ Value.string actor_display_name
            ∷ Value.string actor_avatar_url
            ∷ string_or_null post_id
            ∷ string_or_null reply_id
            ∷ string_or_null content
            ∷ Value.string created_at
            ∷ [])
