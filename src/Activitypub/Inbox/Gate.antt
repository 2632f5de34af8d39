-- ===== src/Activitypub/Inbox/Gate.antt =====
-- Who gets past the first questions of `process_inbox_activity` (core/src/activitypub/inbox.rs).
use dais.Base.{Text, true, false, ◌≡◌, ◌≢◌, refl, inl, inr, ok, Result-cases}
use dais.Formats.{Formats}
use dais.Store.{Store, History, ◌>>=◌, reads, throw}
use dais.Activitypub.Federation.{Urls, is_blocked_actor, is_federation_host_allowed}
use dais.Activitypub.Types.{Activity, Services}
use dais.Activitypub.Inbox.Replies.{Moderator}
use dais.Activitypub.Inbox.Process.{process_inbox_activity}
use dais.Activitypub.Inbox.Safety.{moment}

module _ {C F N U : Type 0} (x : Formats C F N) (store : Store N) (s : Services F N)
    (urls : Urls U) where
  -- An activity changes the database only if its actor is not blocked and the actor's host is allowed,
  -- by the answers of the database when the activity comes.
  pub process_inbox_activity_gate :
      (activity : Activity N) (our_actor_url : Text) (moderator : Moderator F) (h : History N)
      → (process_inbox_activity x store s urls activity our_actor_url moderator h).1 ≢ h
      → (is_blocked_actor x (moment store h) urls activity.actor ≡ ok false)
        × (is_federation_host_allowed x (moment store h) urls activity.actor ≡ ok true)
  unfolding process_inbox_activity ◌>>=◌ reads throw
  process_inbox_activity_gate activity our_actor_url moderator h changed =
      elim (Result-cases (is_blocked_actor x (moment store h) urls activity.actor)) [
        | inr (e, failing) ↦ absurd (changed (rw failing refl))
        | inl (true, blocked) ↦ absurd (changed (rw blocked refl))
        | inl (false, welcome) ↦
            elim (Result-cases
              (is_federation_host_allowed x (moment store h) urls activity.actor)) [
                | inr (e, failing) ↦ absurd (changed (rw (welcome, failing) refl))
                | inl (true, allowed) ↦ (welcome, allowed)
                | inl (false, refused) ↦ absurd (changed (rw (welcome, refused) refl))
              ]
      ]
