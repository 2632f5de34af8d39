-- ===== src/Activitypub/Inbox/Replies.antt =====
-- Replies to our posts, `handle_reply` of core/src/activitypub/inbox.rs.
use dais.Base.{
  Text, bytes, [], ◌∷◌, Option, none, some, Bool, false, CoreResult, ok, err, not, if◌then◌else◌,
}
use dais.Json.{Value, or_default}
use dais.Formats.{Formats}
use dais.Store.{Store, Exec, pure, panic, lift, gets, perform, ◌>>=◌, ◌>>◌}
use dais.Activitypub.Types.{Activity, Services}
use dais.Activitypub.Inbox.Queries.{insert_reply}
use dais.Activitypub.Inbox.Actors.{actor_info_or_unknown, ActorInfo}
use dais.Activitypub.Inbox.Notifications.{create_notification}
use dais.Activitypub.Inbox.Objects.{str_member, infer_note_visibility, required_object}

pub record ModerationResult (F : Type 0) : Type 0 where
  pub status : Text
  pub score : F
  pub flags : Text
  pub hidden : Bool

-- The trait `ContentModerator`, which need not be given.
abbrev pub Moderator : Type 0 → Type 0
Moderator F = Option (Text → CoreResult (ModerationResult F))

module _ {F N : Type 0} (s : Services F N) where
  unfoldable pub approved : ModerationResult F
  approved = record { status = bytes "approved"; score = s.zero; flags = []; hidden = false }

  unfoldable pub verdict : CoreResult (ModerationResult F) → ModerationResult F
  verdict (ok result) = result
  verdict (err e) = approved

  unfoldable pub moderated : Moderator F → Text → ModerationResult F
  unfolding approved verdict
  moderated none content = approved
  moderated (some moderate) content = verdict (moderate content)

module _ {C F N : Type 0} (x : Formats C F N) (store : Store N) (s : Services F N) where
  -- `Number::from_f64(moderation_score).unwrap()`
  unfoldable pub unwrapped : Option N → Exec N (Value N)
  unwrapped none = panic
  unwrapped (some n) = pure (Value.number n)

  unfoldable pub reply_note :
      Activity N → Text → ActorInfo → Value N → ModerationResult F → Exec N (Unit {0})
  unfolding unwrapped
  reply_note activity in_reply_to (actor_username, actor_display_name, actor_avatar_url) note
        moderation =
      do
        checked_at ← gets s.now_rfc3339
        score ← unwrapped (x.from_f64 moderation.score)
        perform store insert_reply (
            Value.string (or_default (str_member (bytes "id") note) activity.id)
            ∷ Value.string in_reply_to
            ∷ Value.string activity.actor
            ∷ Value.string actor_username
            ∷ Value.string actor_display_name
            ∷ Value.string actor_avatar_url
            ∷ Value.string (or_default (str_member (bytes "content") note) [])
            ∷ Value.string (or_default (str_member (bytes "published") note) [])
            ∷ Value.string (infer_note_visibility note)
            ∷ Value.string moderation.status
            ∷ score
            ∷ Value.string moderation.flags
            ∷ Value.string checked_at
            ∷ Value.bool moderation.hidden
            ∷ [])
        if not moderation.hidden
            then create_notification store s (bytes "reply") activity.actor
                (actor_username, actor_display_name, actor_avatar_url) (some in_reply_to)
                (some (or_default (str_member (bytes "id") note) activity.id))
                (some (or_default (str_member (bytes "content") note) []))
            else pure tt

  unfoldable pub handle_reply : Activity N → Text → Moderator F → Exec N (Unit {0})
  unfolding reply_note
  handle_reply activity in_reply_to moderator = do
    note ← lift (required_object activity)
    reply_note activity in_reply_to (actor_info_or_unknown s activity.actor) note
        (moderated s moderator (or_default (str_member (bytes "content") note) []))
