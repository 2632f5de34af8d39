-- ===== src/Activitypub/Inbox/Content.antt =====
-- The handlers of core/src/activitypub/inbox.rs that write to the timeline or store an envelope.
use dais.Base.{Text, bytes, List, ◌∷◌, Option, none, some, ◌≡◌, ◌⊎◌, inl, inr, CoreError, ok_or}
use dais.Json.{Value, get}
use dais.Formats.{Formats}
use dais.Html.{sanitize_html}
use dais.Store.{Statement, Store, lift, ◌>>=◌}
use dais.Store.Keeps.{Keeps, keeps_rules}
use dais.Activitypub.Types.{Activity, Services}
use dais.Activitypub.Envelope.{supported}
use dais.Activitypub.Inbox.Queries.{
  insert_e2ee_conversation, insert_e2ee_message, update_timeline_post, delete_timeline_post,
  insert_timeline_post,
}
use dais.Activitypub.Inbox.Actors.{ActorInfo}
use dais.Activitypub.Inbox.Objects.{member_of, required_object}
use dais.Activitypub.Inbox.Messages.{
  persist_e2ee_direct_message, persist_supported, receive_message, handle_direct_message,
}
use dais.Activitypub.Inbox.Timeline.{update_note, delete_post, ingest_note, ingest_timeline_post}
use dais.Activitypub.Inbox.Permits.{run_of, Permits, create_notification-Keeps, store_message-Keeps}

-- The writes of an encrypted message.
pub record EnvelopeWrites {N : Type 0} (P : Statement N → Type 0) : Type 0 where
  pub e2ee_conversation : (ps : List (Value N)) → P (run_of insert_e2ee_conversation ps)
  pub e2ee_message : (ps : List (Value N)) → P (run_of insert_e2ee_message ps)

-- The writes to the timeline: the HTML that is stored is `sanitize_html` of the content.
pub record TimelineWrites {N : Type 0} (P : Statement N → Type 0) : Type 0 where
  pub post :
      (a b c d e f : Value N) (content : Text) (ps : List (Value N))
      → P (
          run_of insert_timeline_post (
            a
            ∷ b
            ∷ c
            ∷ d
            ∷ e
            ∷ f
            ∷ Value.string content
            ∷ Value.string (sanitize_html content)
            ∷ ps))
  pub edit :
      (content : Text) (ps : List (Value N))
      → P (
          run_of update_timeline_post
            (Value.string content ∷ Value.string (sanitize_html content) ∷ ps))
  pub removal : (ps : List (Value N)) → P (run_of delete_timeline_post ps)

-- The envelope that an object carries, if it is supported.
abbrev pub envelope_in : {C F N : Type 0} → Formats C F N → Option (Value N) → Option (Value N)
envelope_in x o = supported x (member_of (bytes "daisEncryptedMessage") o)

module _ {C F N : Type 0} (x : Formats C F N) (store : Store N) (s : Services F N)
    (P : Statement N → Type 0) (p : Permits P) where
  pub persist-Keeps :
      (activity : Activity N) (note : Value N) (a b : Text) (ps : List Text) (c d : Text)
      (o : Option (Value N))
      → (o ≡ none) ⊎ EnvelopeWrites P
      → Keeps P (persist_supported x store s activity note a b ps c d o)
  unfolding persist_supported persist_e2ee_direct_message
  persist-Keeps activity note a b ps c d none w = search keeps_rules
  persist-Keeps activity note a b ps c d (some v) (inl none_given) = absurd (cc (none_given))
  persist-Keeps activity note a b ps c d (some v) (inr w) =
      search (keeps_rules, w.e2ee_conversation, w.e2ee_message) depth 12

  pub receive_message-Keeps :
      (activity : Activity N) (our_actor_url : Text) (note : Value N)
      → (supported x (get (bytes "daisEncryptedMessage") note) ≡ none) ⊎ EnvelopeWrites P
      → Keeps P (receive_message x store s activity our_actor_url note)
  unfolding receive_message
  receive_message-Keeps activity our_actor_url note w =
      search (keeps_rules, store_message-Keeps, create_notification-Keeps, persist-Keeps, p, w)
        depth 10

  pub receive_object-Keeps :
      (activity : Activity N) (our_actor_url : Text) (e : CoreError) (o : Option (Value N))
      → (envelope_in x o ≡ none) ⊎ EnvelopeWrites P
      → Keeps P (lift (ok_or e o) >>= receive_message x store s activity our_actor_url)
  unfolding member_of lift ◌>>=◌
  receive_object-Keeps activity our_actor_url e none w = record { at = λ h q. q }
  receive_object-Keeps activity our_actor_url e (some note) w = record {
    at = λ h q. (receive_message-Keeps activity our_actor_url note w).at h q;
  }

  pub handle_direct_message-Keeps :
      (activity : Activity N) (our_actor_url : Text)
      → (envelope_in x activity.object ≡ none) ⊎ EnvelopeWrites P
      → Keeps P (handle_direct_message x store s activity our_actor_url)
  unfolding handle_direct_message required_object
  handle_direct_message-Keeps activity our_actor_url w =
      receive_object-Keeps activity our_actor_url _ activity.object w

  pub update_note-Keeps :
      (activity : Activity N) (note : Value N)
      → TimelineWrites P
      → Keeps P (update_note x store s activity note)
  unfolding update_note
  update_note-Keeps activity note w = search (keeps_rules, w.edit) depth 12

  pub delete_post-Keeps :
      (activity : Activity N) (o : Option Text)
      → TimelineWrites P
      → Keeps P (delete_post x store s activity o)
  unfolding delete_post
  delete_post-Keeps activity none w = search keeps_rules
  delete_post-Keeps activity (some id) w = search (keeps_rules, w.removal)

  pub ingest_note-Keeps :
      (activity : Activity N) (info : ActorInfo) (note : Value N)
      → TimelineWrites P
      → Keeps P (ingest_note x store s activity info note)
  unfolding ingest_note
  ingest_note-Keeps activity (a, b, c) note w = search (keeps_rules, w.post) depth 16

  pub ingest_timeline_post-Keeps :
      (activity : Activity N) → TimelineWrites P → Keeps P (ingest_timeline_post x store s activity)
  unfolding ingest_timeline_post
  ingest_timeline_post-Keeps activity w = search (keeps_rules, ingest_note-Keeps)
