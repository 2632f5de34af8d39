-- ===== src/Activitypub/Inbox/Writes.antt =====
-- What `process_inbox_activity` (core/src/activitypub/inbox.rs) may write, from what it asks the
-- database when it is called, and from the envelope that the activity carries.
use dais.Base.{
  Text, bytes, Option, none, some, Bool, true, false, ◌≡◌, ◌≢◌, ◌⊎◌, inl, inr, ok, not,
  if◌then◌else◌, Option-cases,
}
use dais.Json.{Value}
use dais.Formats.{Formats}
use dais.Store.{Statement, Store, Exec, History, reads, pure, ◌>>=◌}
use dais.Store.Keeps.{
  Keeps, KeepsAt, KeepsAt-Keeps, KeepsAt-if, KeepsAt-lift, KeepsAt-reads, Keeps-pure, Keeps-throw,
}
use dais.Activitypub.Federation.{Urls}
use dais.Activitypub.Types.{Activity, Services}
use dais.Activitypub.Inbox.Objects.{
  str_member, object_str, required_object, is_dm, is_timeline_object_type,
}
use dais.Activitypub.Inbox.Questions.{is_accepted_following}
use dais.Activitypub.Inbox.Timeline.{
  update_note, update_followed, update_typed, update_object, handle_update, handle_delete,
}
use dais.Activitypub.Inbox.Replies.{Moderator}
use dais.Activitypub.Inbox.Process.{
  create_followed, create_reply, create_note, create_typed, handle_create, dispatch,
  process_inbox_activity,
}
use dais.Activitypub.Inbox.Permits.{
  Permits, handle_follow-Keeps, handle_undo-Keeps, handle_like-Keeps, handle_announce-Keeps,
  handle_accept-Keeps, handle_reject-Keeps, handle_reply-Keeps,
}
use dais.Activitypub.Inbox.Content.{
  EnvelopeWrites, TimelineWrites, envelope_in, handle_direct_message-Keeps, update_note-Keeps,
  delete_post-Keeps, ingest_timeline_post-Keeps,
}

module _ {C F N : Type 0} (x : Formats C F N) (store : Store N) (s : Services F N)
    (P : Statement N → Type 0) (p : Permits P) where
  module _ (activity : Activity N) (h : History N) where
    -- The actor is no accepted following when the handler asks, or the writes of the timeline are good.
    abbrev pub Followed : Type 0
    Followed =
        (is_accepted_following x (record { execute = store.execute h }) activity.actor ≢ ok true)
        ⊎ TimelineWrites P

    -- A branch behind the question for an accepted following.
    followed :
        (m : Exec N (Unit {0}))
        → Followed
        → (TimelineWrites P → Keeps P m)
        → is_accepted_following x (record { execute = store.execute h }) activity.actor ≡ ok true
        → KeepsAt P m h
    followed m (inl refused) k e = absurd (refused e)
    followed m (inr w) k e = KeepsAt-Keeps m h (k w)

    ask : Exec N Bool
    ask = reads store (λ db. is_accepted_following x db activity.actor)

    asked_first :
        (m : Exec N (Unit {0}))
        → Followed
        → (TimelineWrites P → Keeps P m)
        → KeepsAt P (ask >>= λ accepted. if not accepted then pure tt else m) h
    unfolding ask
    asked_first m w k = KeepsAt-reads store _ _ h λ b. branch b
      where
        branch :
            (b : Bool)
            → is_accepted_following x (record { execute = store.execute h }) activity.actor ≡ ok b
            → KeepsAt P (if not b then pure tt else m) h
        branch true e = followed m w k e
        branch false e = KeepsAt-Keeps _ h (Keeps-pure tt)

    asked_last :
        (m : Exec N (Unit {0}))
        → Followed
        → (TimelineWrites P → Keeps P m)
        → KeepsAt P (ask >>= λ accepted. if accepted then m else pure tt) h
    unfolding ask
    asked_last m w k = KeepsAt-reads store _ _ h λ b. branch b
      where
        branch :
            (b : Bool)
            → is_accepted_following x (record { execute = store.execute h }) activity.actor ≡ ok b
            → KeepsAt P (if b then m else pure tt) h
        branch true e = followed m w k e
        branch false e = KeepsAt-Keeps _ h (Keeps-pure tt)

    update_object-KeepsAt :
        (o : Option (Value N)) → Followed → KeepsAt P (update_object x store s activity o) h
    unfolding update_object update_typed update_followed ask
    update_object-KeepsAt none w = KeepsAt-Keeps _ h (Keeps-pure tt)
    update_object-KeepsAt (some note) w = elim (Option-cases (str_member (bytes "type") note)) [
      | inl e ↦ rw e (KeepsAt-Keeps _ h (Keeps-pure tt))
      | inr (kind, e) ↦ rw e (
          KeepsAt-if _ _ _ h (λ other. KeepsAt-Keeps _ h (Keeps-pure tt))
            (λ known.
              asked_first (update_note x store s activity note) w
                (update_note-Keeps x store s P p activity note)))
    ]

    handle_update-KeepsAt : Followed → KeepsAt P (handle_update x store s activity) h
    unfolding handle_update
    handle_update-KeepsAt w = update_object-KeepsAt activity.object w

    handle_delete-KeepsAt : Followed → KeepsAt P (handle_delete x store s activity) h
    unfolding handle_delete ask
    handle_delete-KeepsAt w = asked_first _ w (delete_post-Keeps x store s P p activity _)

    create_followed-KeepsAt : Followed → KeepsAt P (create_followed x store s activity) h
    unfolding create_followed ask
    create_followed-KeepsAt w = asked_last _ w (ingest_timeline_post-Keeps x store s P p activity)

    create_reply-KeepsAt :
        (moderator : Moderator F) (o : Option Text)
        → Followed
        → KeepsAt P (create_reply x store s activity moderator o) h
    unfolding create_reply
    create_reply-KeepsAt moderator none w = create_followed-KeepsAt w
    create_reply-KeepsAt moderator (some in_reply_to) w = KeepsAt-reads store _ _ h λ ours e.
        KeepsAt-if ours _ _ h
          (λ yours.
            KeepsAt-Keeps _ h (handle_reply-Keeps x store s P p activity in_reply_to moderator))
          (λ other. create_followed-KeepsAt w)

    create_note-KeepsAt :
        (our_actor_url : Text) (moderator : Moderator F)
        → (envelope_in x activity.object ≡ none) ⊎ EnvelopeWrites P
        → Followed
        → KeepsAt P (create_note x store s activity our_actor_url moderator) h
    unfolding create_note
    create_note-KeepsAt our_actor_url moderator v w =
        KeepsAt-lift (required_object activity) _ h λ note found.
          KeepsAt-if (is_dm our_actor_url note) _ _ h
            (λ dm.
              KeepsAt-Keeps _ h
                (handle_direct_message-Keeps x store s P p activity our_actor_url v))
            (λ post. create_reply-KeepsAt moderator (str_member (bytes "inReplyTo") note) w)

    create_typed-KeepsAt :
        (our_actor_url : Text) (moderator : Moderator F) (o : Option Text)
        → (envelope_in x activity.object ≡ none) ⊎ EnvelopeWrites P
        → Followed
        → KeepsAt P (create_typed x store s activity our_actor_url moderator o) h
    unfolding create_typed
    create_typed-KeepsAt our_actor_url moderator none v w = KeepsAt-Keeps _ h (Keeps-pure tt)
    create_typed-KeepsAt our_actor_url moderator (some kind) v w =
        KeepsAt-if (not (is_timeline_object_type kind)) _ _ h
          (λ other. KeepsAt-Keeps _ h (Keeps-pure tt))
          (λ known. create_note-KeepsAt our_actor_url moderator v w)

    handle_create-KeepsAt :
        (our_actor_url : Text) (moderator : Moderator F)
        → (envelope_in x activity.object ≡ none) ⊎ EnvelopeWrites P
        → Followed
        → KeepsAt P (handle_create x store s activity our_actor_url moderator) h
    unfolding handle_create
    handle_create-KeepsAt our_actor_url moderator v w =
        create_typed-KeepsAt our_actor_url moderator (object_str (bytes "type") activity) v w

    dispatch-KeepsAt :
        (our_actor_url : Text) (moderator : Moderator F)
        → (envelope_in x activity.object ≡ none) ⊎ EnvelopeWrites P
        → Followed
        → KeepsAt P (dispatch x store s activity our_actor_url moderator) h
    unfolding dispatch
    dispatch-KeepsAt our_actor_url moderator v w =
        search
          (
            KeepsAt-if, KeepsAt-Keeps, Keeps-pure, handle_follow-Keeps, handle_undo-Keeps,
            handle_create-KeepsAt, handle_delete-KeepsAt, handle_update-KeepsAt, handle_like-Keeps,
            handle_announce-Keeps, handle_accept-Keeps, handle_reject-Keeps, p, v, w,
          )
          depth 14

    pub process_inbox_activity-KeepsAt :
        {U : Type 0} (urls : Urls U) (our_actor_url : Text) (moderator : Moderator F)
        → (envelope_in x activity.object ≡ none) ⊎ EnvelopeWrites P
        → Followed
        → KeepsAt P (process_inbox_activity x store s urls activity our_actor_url moderator) h
    unfolding process_inbox_activity
    process_inbox_activity-KeepsAt urls our_actor_url moderator v w =
        search (KeepsAt-reads, KeepsAt-if, KeepsAt-Keeps, Keeps-throw, dispatch-KeepsAt, v, w) depth
          12
