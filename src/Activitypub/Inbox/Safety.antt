-- ===== src/Activitypub/Inbox/Safety.antt =====
-- Who may write what through the inbox (core/src/activitypub/inbox.rs). A handler is run on a store
-- as it is when the activity comes, so the list of its statements is empty at first.
use dais.Base.{
  ℕ, Text, bytes, List, [], ◌∷◌, none, some, Bool, true, false, ◌≡◌, ◌≢◌, refl, ◌⊎◌, inl, inr, All,
  All-imp, contains, ◌||◌, arith, get_elem?, ok,
}
use dais.Json.{Value}
use dais.Formats.{Formats}
use dais.Html.{sanitize_html}
use dais.Html.Pieces.{IsSafe}
use dais.Html.Safety.{sanitize_html-IsSafe}
use dais.Store.{Statement, Store, History}
use dais.Activitypub.Federation.{Database, Urls}
use dais.Activitypub.Types.{Activity, Services}
use dais.Activitypub.Inbox.Queries.{
  insert_notification, insert_follower, delete_follower, delete_interaction, insert_conversation,
  update_conversation, insert_participant, insert_direct_message, insert_reply, insert_like,
  insert_boost, accept_following, reject_following, update_timeline_post, insert_timeline_post,
}
use dais.Activitypub.Inbox.Questions.{is_accepted_following}
use dais.Activitypub.Inbox.Replies.{Moderator}
use dais.Activitypub.Inbox.Process.{process_inbox_activity}
use dais.Activitypub.Inbox.Permits.{Permits, run_of}
use dais.Activitypub.Inbox.Content.{EnvelopeWrites, TimelineWrites, envelope_in}
use dais.Activitypub.Inbox.Writes.{process_inbox_activity-KeepsAt}

-- The database as it is at a moment.
abbrev pub moment : {N : Type 0} → Store N → History N → Database N
moment store h = record { execute = store.execute h }

-- A statement that does not mention a table.
abbrev pub Omits : {N : Type 0} → Text → Statement N → Type 0
Omits table st = contains st.sql table ≡ false

-- The statements of the handlers that have no condition.
abbrev common : List Text
common =
    insert_notification ∷ insert_follower ∷ delete_follower ∷ delete_interaction
    ∷ insert_conversation ∷ update_conversation ∷ insert_participant ∷ insert_direct_message
    ∷ insert_reply ∷ insert_like ∷ insert_boost ∷ accept_following ∷ reject_following ∷ []

permits_by :
    {N : Type 0} (P : Statement N → Type 0)
    → All (λ sql. (ps : List (Value N)) → P (run_of sql ps)) common
    → Permits P
permits_by P (h0, (h1, (h2, (h3, (h4, (h5, (h6, (h7, (h8, (h9, (h10, (h11, (h12, u))))))))))))) =
    record {
      notification = h0;
      follower = h1;
      no_follower = h2;
      no_interaction = h3;
      conversation = h4;
      conversation_date = h5;
      participant = h6;
      message = h7;
      reply = h8;
      like = h9;
      boost = h10;
      accept = h11;
      reject = h12;
    }

-- No text of a list mentions a table.
mentioned : Text → List Text → Bool
mentioned table [] = false
mentioned table (sql ∷ more) = contains sql table || mentioned table more

omits_all :
    (table : Text) (sqls : List Text)
    → mentioned table sqls ≡ false
    → All (λ sql. contains sql table ≡ false) sqls
unfolding mentioned
omits_all table [] h = tt
omits_all table (sql ∷ more) h = (ground arith, omits_all table more (ground arith))

Omits-common :
    {N : Type 0} (table : Text) → mentioned table common ≡ false → Permits (Omits {N = N} table)
Omits-common {N} table h = permits_by (Omits table) (
    All-imp {Q = λ sql. List (Value N) → contains sql table ≡ false} (λ sql omitted ps. omitted)
      common (omits_all table common h))

timeline_common : mentioned (bytes "timeline_posts") common ≡ false
unfolding bytes contains mentioned
timeline_common = refl

e2ee_common : mentioned (bytes "e2ee_") common ≡ false
unfolding bytes contains mentioned
e2ee_common = refl

html_common : mentioned (bytes "content_html") common ≡ false
unfolding bytes contains mentioned
html_common = refl

timeline_envelope : {N : Type 0} → EnvelopeWrites (Omits {N = N} (bytes "timeline_posts"))
unfolding bytes contains
timeline_envelope = record { e2ee_conversation = λ ps. refl; e2ee_message = λ ps. refl }

e2ee_timeline : {N : Type 0} → TimelineWrites (Omits {N = N} (bytes "e2ee_"))
unfolding bytes contains
e2ee_timeline = record {
  post = λ a b c d e f content ps. refl;
  edit = λ content ps. refl;
  removal = λ ps. refl;
}

-- A parameter of a statement that is a safe text.
abbrev pub HasSafe : {N : Type 0} → Statement N → ℕ → Type 0
HasSafe st i = (html : Text) × (get_elem? st.params i ≡ some (Value.string html)) × IsSafe html

-- The statements that set `content_html` bind it to parameter 8 of the insertion, and 2 of the update.
abbrev pub StoresSafe : {N : Type 0} → Statement N → Type 0
StoresSafe st =
    (contains st.sql (bytes "content_html") ≡ false)
    ⊎ (((st.sql ≡ insert_timeline_post) × HasSafe st 7)
        ⊎ ((st.sql ≡ update_timeline_post) × HasSafe st 1))

html_envelope : {N : Type 0} → EnvelopeWrites (StoresSafe {N = N})
unfolding bytes contains
html_envelope = record { e2ee_conversation = λ ps. inl refl; e2ee_message = λ ps. inl refl }

html_timeline : {N : Type 0} → TimelineWrites (StoresSafe {N = N})
unfolding bytes contains
html_timeline = record {
  post = λ a b c d e f content ps.
      inr (inl (refl, (sanitize_html content, refl, sanitize_html-IsSafe content)));
  edit =
      λ content ps. inr (inr (refl, (sanitize_html content, refl, sanitize_html-IsSafe content)));
  removal = λ ps. inl refl;
}

html_permits : {N : Type 0} → Permits (StoresSafe {N = N})
html_permits {N} = permits_by StoresSafe (
    All-imp {Q = λ sql. (ps : List (Value N)) → StoresSafe (run_of sql ps)}
      (λ sql omitted ps. inl omitted) common (omits_all (bytes "content_html") common html_common))

module _ {C F N U : Type 0} (x : Formats C F N) (store : Store N) (s : Services F N)
    (urls : Urls U) where
  -- An activity of an actor whom the owner does not follow, or whose follow is not accepted, runs no
  -- statement that mentions the timeline.
  pub process_inbox_activity_unfollowed :
      (activity : Activity N) (our_actor_url : Text) (moderator : Moderator F)
      → is_accepted_following x (moment store []) activity.actor ≢ ok true
      → All
          (Omits (bytes "timeline_posts"))
          (process_inbox_activity x store s urls activity our_actor_url moderator []).1
  process_inbox_activity_unfollowed activity our_actor_url moderator refused =
      (process_inbox_activity-KeepsAt x store s (Omits (bytes "timeline_posts"))
          (Omits-common _ timeline_common) activity [] urls our_actor_url moderator
          (inr timeline_envelope) (inl refused)).after
        tt

  -- An activity whose object carries no supported envelope runs no statement that mentions a table of
  -- encrypted messages.
  pub process_inbox_activity_unsupported :
      (activity : Activity N) (our_actor_url : Text) (moderator : Moderator F)
      → envelope_in x activity.object ≡ none
      → All
          (Omits (bytes "e2ee_"))
          (process_inbox_activity x store s urls activity our_actor_url moderator []).1
  process_inbox_activity_unsupported activity our_actor_url moderator absent =
      (process_inbox_activity-KeepsAt x store s (Omits (bytes "e2ee_")) (Omits-common _ e2ee_common)
          activity [] urls our_actor_url moderator (inl absent) (inr e2ee_timeline)).after
        tt

  -- Each statement that sets the HTML of a post of the timeline sets it to a safe text.
  pub process_inbox_activity-StoresSafe :
      (activity : Activity N) (our_actor_url : Text) (moderator : Moderator F)
      → All StoresSafe (process_inbox_activity x store s urls activity our_actor_url moderator []).1
  process_inbox_activity-StoresSafe activity our_actor_url moderator =
      (process_inbox_activity-KeepsAt x store s StoresSafe html_permits activity [] urls
          our_actor_url moderator (inr html_envelope) (inr html_timeline)).after
        tt
