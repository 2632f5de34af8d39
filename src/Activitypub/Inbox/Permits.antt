-- ===== src/Activitypub/Inbox/Permits.antt =====
-- The handlers of core/src/activitypub/inbox.rs one by one: the SQL texts that each of them runs.
use dais.Base.{Text, List, Option, none, some}
use dais.Json.{Value}
use dais.Formats.{Formats}
use dais.Store.{Statement, Store}
use dais.Store.Keeps.{Keeps, keeps_rules}
use dais.Activitypub.Types.{Activity, Services}
use dais.Activitypub.Inbox.Queries.{
  insert_notification, insert_follower, delete_follower, delete_interaction, insert_conversation,
  update_conversation, insert_participant, insert_direct_message, insert_reply, insert_like,
  insert_boost, accept_following, reject_following,
}
use dais.Activitypub.Inbox.Actors.{ActorInfo}
use dais.Activitypub.Inbox.Notifications.{create_notification}
use dais.Activitypub.Inbox.Follows.{
  handle_follow, handle_like, handle_announce, store_interaction, undo_interaction, undo_of,
  handle_undo, answer_follow, handle_accept, handle_reject,
}
use dais.Activitypub.Inbox.Replies.{
  Moderator, ModerationResult, reply_note, handle_reply, unwrapped,
}
use dais.Activitypub.Inbox.Messages.{store_message}

-- The statement of a text and its parameters.
abbrev pub run_of : {N : Type 0} → Text → List (Value N) → Statement N
run_of sql params = record { sql = sql; params = params }

-- A property of statements that those of the handlers without a condition have.
pub record Permits {N : Type 0} (P : Statement N → Type 0) : Type 0 where
  pub notification : (ps : List (Value N)) → P (run_of insert_notification ps)
  pub follower : (ps : List (Value N)) → P (run_of insert_follower ps)
  pub no_follower : (ps : List (Value N)) → P (run_of delete_follower ps)
  pub no_interaction : (ps : List (Value N)) → P (run_of delete_interaction ps)
  pub conversation : (ps : List (Value N)) → P (run_of insert_conversation ps)
  pub conversation_date : (ps : List (Value N)) → P (run_of update_conversation ps)
  pub participant : (ps : List (Value N)) → P (run_of insert_participant ps)
  pub message : (ps : List (Value N)) → P (run_of insert_direct_message ps)
  pub reply : (ps : List (Value N)) → P (run_of insert_reply ps)
  pub like : (ps : List (Value N)) → P (run_of insert_like ps)
  pub boost : (ps : List (Value N)) → P (run_of insert_boost ps)
  pub accept : (ps : List (Value N)) → P (run_of accept_following ps)
  pub reject : (ps : List (Value N)) → P (run_of reject_following ps)

module _ {C F N : Type 0} (x : Formats C F N) (store : Store N) (s : Services F N)
    (P : Statement N → Type 0) (p : Permits P) where
  pub create_notification-Keeps :
      (kind actor_id : Text) (info : ActorInfo) (post_id reply_id content : Option Text)
      → Keeps P (create_notification store s kind actor_id info post_id reply_id content)
  unfolding create_notification
  create_notification-Keeps kind actor_id (a, b, c) post_id reply_id content =
      search (keeps_rules, p.notification)

  pub handle_follow-Keeps :
      (activity : Activity N) (our_actor_url : Text)
      → Keeps P (handle_follow store s activity our_actor_url)
  unfolding handle_follow
  handle_follow-Keeps activity our_actor_url = search (keeps_rules, p.follower)

  store_interaction-Keeps :
      (sql kind : Text) (activity : Activity N) (object_id : Text) (info : ActorInfo)
      → ((ps : List (Value N)) → P (run_of sql ps))
      → Keeps P (store_interaction store s sql kind activity object_id info)
  unfolding store_interaction
  store_interaction-Keeps sql kind activity object_id (a, b, c) q =
      search (keeps_rules, create_notification-Keeps)

  pub handle_like-Keeps : (activity : Activity N) → Keeps P (handle_like store s activity)
  unfolding handle_like
  handle_like-Keeps activity = search (keeps_rules, store_interaction-Keeps, p.like)

  pub handle_announce-Keeps : (activity : Activity N) → Keeps P (handle_announce store s activity)
  unfolding handle_announce
  handle_announce-Keeps activity = search (keeps_rules, store_interaction-Keeps, p.boost)

  undo_interaction-Keeps : (id : Option Text) → Keeps P (undo_interaction store id)
  unfolding undo_interaction
  undo_interaction-Keeps none = search keeps_rules
  undo_interaction-Keeps (some id) = search (keeps_rules, p.no_interaction)

  undo_of-Keeps :
      (activity : Activity N) (kind : Option Text) → Keeps P (undo_of store activity kind)
  unfolding undo_of
  undo_of-Keeps activity none = search keeps_rules
  undo_of-Keeps activity (some kind) = search (keeps_rules, undo_interaction-Keeps, p.no_follower)

  pub handle_undo-Keeps : (activity : Activity N) → Keeps P (handle_undo store activity)
  unfolding handle_undo
  handle_undo-Keeps activity = undo_of-Keeps activity _

  answer_follow-Keeps :
      (sql : Text) (activity : Activity N) (kind : Option Text)
      → ((ps : List (Value N)) → P (run_of sql ps))
      → Keeps P (answer_follow store sql activity kind)
  unfolding answer_follow
  answer_follow-Keeps sql activity none q = search keeps_rules
  answer_follow-Keeps sql activity (some kind) q = search (keeps_rules)

  pub handle_accept-Keeps : (activity : Activity N) → Keeps P (handle_accept store activity)
  unfolding handle_accept
  handle_accept-Keeps activity = answer_follow-Keeps accept_following activity _ p.accept

  pub handle_reject-Keeps : (activity : Activity N) → Keeps P (handle_reject store activity)
  unfolding handle_reject
  handle_reject-Keeps activity = answer_follow-Keeps reject_following activity _ p.reject

  unwrapped-Keeps : (o : Option N) → Keeps P (unwrapped x store s o)
  unfolding unwrapped
  unwrapped-Keeps none = search keeps_rules
  unwrapped-Keeps (some n) = search keeps_rules

  reply_note-Keeps :
      (activity : Activity N) (in_reply_to : Text) (info : ActorInfo) (note : Value N)
      (m : ModerationResult F)
      → Keeps P (reply_note x store s activity in_reply_to info note m)
  unfolding reply_note
  reply_note-Keeps activity in_reply_to (a, b, c) note m =
      search (keeps_rules, unwrapped-Keeps, create_notification-Keeps, p.reply)

  pub handle_reply-Keeps :
      (activity : Activity N) (in_reply_to : Text) (moderator : Moderator F)
      → Keeps P (handle_reply x store s activity in_reply_to moderator)
  unfolding handle_reply
  handle_reply-Keeps activity in_reply_to moderator = search (keeps_rules, reply_note-Keeps)

  pub store_message-Keeps :
      (activity : Activity N) (dm_id content published_at : Text) (participants : List Text)
      → Keeps P (store_message x store s activity dm_id content published_at participants)
  unfolding store_message
  store_message-Keeps activity dm_id content published_at participants =
      search (keeps_rules, p.conversation, p.conversation_date, p.participant, p.message) depth 12
