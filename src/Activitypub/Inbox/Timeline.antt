-- ===== src/Activitypub/Inbox/Timeline.antt =====
-- The posts of followed actors: `handle_update`, `handle_delete` and `ingest_timeline_post` of
-- core/src/activitypub/inbox.rs.
use dais.Base.{Text, bytes, [], ◌∷◌, Option, none, some, serialization, map_err, not, if◌then◌else◌}
use dais.Json.{Value, or_default}
use dais.Formats.{Formats}
use dais.Html.{sanitize_html}
use dais.Store.{Store, Exec, History, pure, lift, reads, gets, perform, ◌>>=◌}
use dais.Activitypub.Inbox.Questions.{is_accepted_following}
use dais.Activitypub.Types.{Activity, Services}
use dais.Activitypub.Inbox.Queries.{
  update_timeline_post, delete_timeline_post, insert_timeline_post,
}
use dais.Activitypub.Inbox.Actors.{actor_info_or_unknown, ActorInfo}
use dais.Activitypub.Inbox.Notifications.{string_or_null}
use dais.Activitypub.Inbox.Objects.{
  str_member, is_timeline_object_type, note_object_id, infer_note_visibility, required_object,
  supported_encrypted_message,
}

module _ {F N : Type 0} (s : Services F N) where
  -- The first of two dates that is there, or the time now.
  unfoldable pub date_or_now : Option Text → Option Text → History N → Text
  date_or_now (some date) b h = date
  date_or_now none (some date) h = date
  date_or_now none none h = s.now_rfc3339 h

module _ {C F N : Type 0} (x : Formats C F N) (store : Store N) (s : Services F N) where
  -- `serde_json::to_string`, by the operator `?`.
  unfoldable pub to_json : Value N → Exec N Text
  to_json v = lift (map_err serialization (s.value_to_json v))

  unfoldable pub update_note : Activity N → Value N → Exec N (Unit {0})
  unfolding to_json
  update_note activity note = do
    object_id ← lift (note_object_id activity)
    updated_at ← gets (date_or_now s (str_member (bytes "updated") note) activity.published)
    raw_object ← to_json note
    encrypted_message ← lift (supported_encrypted_message x s note)
    perform store update_timeline_post (
        Value.string (or_default (str_member (bytes "content") note) [])
        ∷ Value.string (sanitize_html (or_default (str_member (bytes "content") note) []))
        ∷ Value.string updated_at
        ∷ Value.string raw_object
        ∷ string_or_null encrypted_message
        ∷ Value.string object_id
        ∷ [])

  unfoldable pub update_followed : Activity N → Value N → Exec N (Unit {0})
  update_followed activity note = do
    accepted ← reads store (λ db. is_accepted_following x db activity.actor)
    if not accepted then pure tt else update_note activity note

  unfoldable pub update_typed : Activity N → Value N → Option Text → Exec N (Unit {0})
  update_typed activity note none = pure tt
  update_typed activity note (some object_type) =
      if not (is_timeline_object_type object_type) then pure tt else update_followed activity note

  unfoldable pub update_object : Activity N → Option (Value N) → Exec N (Unit {0})
  update_object activity none = pure tt
  update_object activity (some note) = update_typed activity note (str_member (bytes "type") note)

  unfoldable pub handle_update : Activity N → Exec N (Unit {0})
  unfolding update_object update_typed update_followed update_note
  handle_update activity = update_object activity activity.object

  unfoldable pub deleted_id : Activity N → Option (Value N) → Option Text
  deleted_id activity none = none
  deleted_id activity (some (Value.string id)) = some id
  deleted_id activity (some note) = some (or_default (str_member (bytes "id") note) activity.id)

  unfoldable pub delete_post : Activity N → Option Text → Exec N (Unit {0})
  delete_post activity none = pure tt
  delete_post activity (some object_id) = do
    deleted_at ← gets (date_or_now s activity.published none)
    perform store delete_timeline_post (Value.string deleted_at ∷ Value.string object_id ∷ [])

  unfoldable pub handle_delete : Activity N → Exec N (Unit {0})
  unfolding deleted_id delete_post
  handle_delete activity = do
    accepted ← reads store (λ db. is_accepted_following x db activity.actor)
    if not accepted then pure tt else delete_post activity (deleted_id activity activity.object)

  unfoldable pub ingest_note : Activity N → ActorInfo → Value N → Exec N (Unit {0})
  unfolding to_json
  ingest_note activity (actor_username, actor_display_name, actor_avatar_url) note = do
    object_id ← lift (note_object_id activity)
    published_at ← gets (date_or_now s (str_member (bytes "published") note) activity.published)
    raw_object ← to_json note
    raw_activity ← lift (map_err serialization (s.activity_to_json activity))
    encrypted_message ← lift (supported_encrypted_message x s note)
    id ← gets s.generate_uuid
    perform store insert_timeline_post (
        Value.string id
        ∷ Value.string object_id
        ∷ Value.string activity.actor
        ∷ Value.string actor_username
        ∷ Value.string actor_display_name
        ∷ Value.string actor_avatar_url
        ∷ Value.string (or_default (str_member (bytes "content") note) [])
        ∷ Value.string (sanitize_html (or_default (str_member (bytes "content") note) []))
        ∷ Value.string (infer_note_visibility note)
        ∷ string_or_null (str_member (bytes "inReplyTo") note)
        ∷ Value.string published_at
        ∷ Value.string raw_object
        ∷ Value.string raw_activity
        ∷ string_or_null encrypted_message
        ∷ [])

  unfoldable pub ingest_timeline_post : Activity N → Exec N (Unit {0})
  unfolding ingest_note
  ingest_timeline_post activity = do
    note ← lift (required_object activity)
    ingest_note activity (actor_info_or_unknown s activity.actor) note
