-- ===== src/Activitypub/Inbox/Follows.antt =====
-- The handlers for Follow, Undo, Accept, Reject, Like and Announce, of core/src/activitypub/inbox.rs.
use dais.Base.{
  Text, bytes, [], ◌∷◌, Option, none, some, ◌||◌, text_eq, ok_or, invalid_activity, if◌then◌else◌,
}
use dais.Json.{Value, as_str, or_default}
use dais.Store.{Store, Exec, pure, lift, perform, ◌>>=◌, ◌>>◌}
use dais.Activitypub.Types.{Activity, Services}
use dais.Activitypub.Inbox.Queries.{
  insert_follower, delete_follower, delete_interaction, insert_like, insert_boost, accept_following,
  reject_following,
}
use dais.Activitypub.Inbox.Actors.{actor_info_or_unknown, ActorInfo, fetch_actor_delivery_info}
use dais.Activitypub.Inbox.Notifications.{create_notification, string_or_null}
use dais.Activitypub.Inbox.Objects.{object_str}

module _ {F N : Type 0} (store : Store N) (s : Services F N) where
  unfoldable pub handle_follow : Activity N → Text → Exec N (Unit {0})
  handle_follow activity our_actor_url = do
    delivery ← lift (fetch_actor_delivery_info s activity.actor)
    perform store insert_follower (
        Value.string activity.id
        ∷ Value.string our_actor_url
        ∷ Value.string activity.actor
        ∷ Value.string delivery.inbox
        ∷ string_or_null delivery.shared_inbox
        ∷ [])

  -- What Like and Announce store, and the notification.
  unfoldable pub store_interaction : Text → Text → Activity N → Text → ActorInfo → Exec N (Unit {0})
  store_interaction sql kind activity object_id
        (actor_username, actor_display_name, actor_avatar_url) =
      perform store sql (
        Value.string activity.id
        ∷ Value.string activity.actor
        ∷ Value.string actor_username
        ∷ Value.string actor_display_name
        ∷ Value.string actor_avatar_url
        ∷ Value.string object_id
        ∷ Value.string (or_default activity.published [])
        ∷ [])
      >> create_notification store s kind activity.actor
          (actor_username, actor_display_name, actor_avatar_url) (some object_id) none none

  unfoldable pub handle_like : Activity N → Exec N (Unit {0})
  unfolding store_interaction
  handle_like activity = do
    object_id ← lift (ok_or (invalid_activity (bytes "Missing object ID")) (as_str activity.object))
    store_interaction insert_like (bytes "like") activity object_id
        (actor_info_or_unknown s activity.actor)

  unfoldable pub handle_announce : Activity N → Exec N (Unit {0})
  unfolding store_interaction
  handle_announce activity = do
    object_id ← lift (ok_or (invalid_activity (bytes "Missing object ID")) (as_str activity.object))
    store_interaction insert_boost (bytes "boost") activity object_id
        (actor_info_or_unknown s activity.actor)

module _ {N : Type 0} (store : Store N) where
  unfoldable pub undo_interaction : Option Text → Exec N (Unit {0})
  undo_interaction none = pure tt
  undo_interaction (some object_id) = perform store delete_interaction (Value.string object_id ∷ [])

  unfoldable pub undo_of : Activity N → Option Text → Exec N (Unit {0})
  undo_of activity none = pure tt
  undo_of activity (some object_type) =
      if text_eq object_type (bytes "Follow")
      then perform store delete_follower (Value.string activity.actor ∷ [])
      else if text_eq object_type (bytes "Like") || text_eq object_type (bytes "Announce")
      then undo_interaction (object_str (bytes "id") activity)
      else pure tt

  unfoldable pub handle_undo : Activity N → Exec N (Unit {0})
  unfolding undo_of undo_interaction
  handle_undo activity = undo_of activity (object_str (bytes "type") activity)

  -- The answer to a follow of ours.
  unfoldable pub answer_follow : Text → Activity N → Option Text → Exec N (Unit {0})
  answer_follow sql activity none = pure tt
  answer_follow sql activity (some object_type) =
      if text_eq object_type (bytes "Follow")
      then perform store sql (Value.string activity.actor ∷ [])
      else pure tt

  unfoldable pub handle_accept : Activity N → Exec N (Unit {0})
  unfolding answer_follow
  handle_accept activity =
      answer_follow accept_following activity (object_str (bytes "type") activity)

  unfoldable pub handle_reject : Activity N → Exec N (Unit {0})
  unfolding answer_follow
  handle_reject activity =
      answer_follow reject_following activity (object_str (bytes "type") activity)
