-- ===== src/Activitypub/Inbox/Process.antt =====
-- `handle_create` and `process_inbox_activity` of core/src/activitypub/inbox.rs.
use dais.Base.{Text, bytes, ◌++◌, Option, none, some, not, text_eq, unauthorized, if◌then◌else◌}
use dais.Formats.{Formats}
use dais.Store.{Store, Exec, pure, throw, lift, reads, ◌>>=◌}
use dais.Activitypub.Federation.{Urls, is_blocked_actor, is_federation_host_allowed}
use dais.Activitypub.Types.{Activity, Services}
use dais.Activitypub.Inbox.Objects.{
  str_member, object_str, is_timeline_object_type, is_dm, required_object,
}
use dais.Activitypub.Inbox.Questions.{is_accepted_following, is_reply_to_our_post}
use dais.Activitypub.Inbox.Messages.{handle_direct_message}
use dais.Activitypub.Inbox.Follows.{
  handle_follow, handle_undo, handle_like, handle_announce, handle_accept, handle_reject,
}
use dais.Activitypub.Inbox.Timeline.{handle_update, handle_delete, ingest_timeline_post}
use dais.Activitypub.Inbox.Replies.{Moderator, handle_reply}

module _ {C F N : Type 0} (x : Formats C F N) (store : Store N) (s : Services F N) where
  unfoldable pub create_followed : Activity N → Exec N (Unit {0})
  create_followed activity = do
    accepted ← reads store (λ db. is_accepted_following x db activity.actor)
    if accepted then ingest_timeline_post x store s activity else pure tt

  unfoldable pub create_reply : Activity N → Moderator F → Option Text → Exec N (Unit {0})
  unfolding create_followed
  create_reply activity moderator none = create_followed activity
  create_reply activity moderator (some in_reply_to) = do
    ours ← reads store (λ db. is_reply_to_our_post x db in_reply_to)
    if ours then handle_reply x store s activity in_reply_to moderator else create_followed activity

  unfoldable pub create_note : Activity N → Text → Moderator F → Exec N (Unit {0})
  unfolding create_reply
  create_note activity our_actor_url moderator = do
    note ← lift (required_object activity)
    if is_dm our_actor_url note
        then handle_direct_message x store s activity our_actor_url
        else create_reply activity moderator (str_member (bytes "inReplyTo") note)

  unfoldable pub create_typed : Activity N → Text → Moderator F → Option Text → Exec N (Unit {0})
  create_typed activity our_actor_url moderator none = pure tt
  create_typed activity our_actor_url moderator (some object_type) =
      if not (is_timeline_object_type object_type)
      then pure tt
      else create_note activity our_actor_url moderator

  unfoldable pub handle_create : Activity N → Text → Moderator F → Exec N (Unit {0})
  unfolding create_typed create_note
  handle_create activity our_actor_url moderator =
      create_typed activity our_actor_url moderator (object_str (bytes "type") activity)

  -- The handler for the type of an activity; other types are ignored.
  unfoldable pub dispatch : Activity N → Text → Moderator F → Exec N (Unit {0})
  dispatch activity our_actor_url moderator =
      let kind = activity.activity_type in
      if text_eq kind (bytes "Follow")
      then handle_follow store s activity our_actor_url
      else if text_eq kind (bytes "Undo")
      then handle_undo store activity
      else if text_eq kind (bytes "Create")
      then handle_create activity our_actor_url moderator
      else if text_eq kind (bytes "Update")
      then handle_update x store s activity
      else if text_eq kind (bytes "Delete")
      then handle_delete x store s activity
      else if text_eq kind (bytes "Like")
      then handle_like store s activity
      else if text_eq kind (bytes "Announce")
      then handle_announce store s activity
      else if text_eq kind (bytes "Accept")
      then handle_accept store activity
      else if text_eq kind (bytes "Reject")
      then handle_reject store activity
      else pure tt

  module _ {U : Type 0} (urls : Urls U) where
    unfoldable pub process_inbox_activity : Activity N → Text → Moderator F → Exec N (Unit {0})
    process_inbox_activity activity our_actor_url moderator = do
      blocked ← reads store (λ db. is_blocked_actor x db urls activity.actor)
      if blocked then throw (unauthorized (bytes "Actor is blocked: " ++ activity.actor)) else (do
        allowed ← reads store (λ db. is_federation_host_allowed x db urls activity.actor)
        if not allowed
            then throw (
                unauthorized (
                  bytes "Actor host is not allowlisted while closed_network is enabled: "
                  ++ activity.actor))
            else dispatch activity our_actor_url moderator)
