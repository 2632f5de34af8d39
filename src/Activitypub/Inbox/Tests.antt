-- ===== src/Activitypub/Inbox/Tests.antt =====
-- Activities on which the inbox is run, with a store that answers every query with no rows, and one
-- in which every actor is an accepted following.
use dais.Base.{
  ℕ, Text, bytes, List, [], ◌∷◌, Option, none, some, ok, err, false, true, contains, if◌then◌else◌,
  ◌≡◌, ◌≢◌, refl, All, ◌↔◌, ◌⊎◌, Result,
}
use dais.Json.{Value, Members, Values}
use dais.Sample.{sample}
use dais.Store.{Store, Statement}
use dais.Activitypub.Federation.{Urls, is_blocked_actor, is_federation_host_allowed}
use dais.Activitypub.Types.{Activity, Services}
use dais.Activitypub.Inbox.Conversations.{hash_input, sorted_participants}
use dais.Activitypub.Inbox.Follows.{handle_undo}
use dais.Activitypub.Inbox.Timeline.{handle_update}
use dais.Activitypub.Inbox.Process.{process_inbox_activity}
use dais.Activitypub.Inbox.Safety.{
  Omits, StoresSafe, moment, process_inbox_activity_unfollowed, process_inbox_activity_unsupported,
  process_inbox_activity-StoresSafe,
}
use dais.Activitypub.Inbox.Gate.{process_inbox_activity_gate}
use dais.Activitypub.Inbox.Authors.{by, handle_update_any_author, handle_undo_any_actor}
use dais.Activitypub.Inbox.Identity.{hash_input_exact}

abbrev urls : Urls Text
urls = record { parse = λ t. ok t; scheme = λ u. bytes "https"; host_str = λ u. some u }

abbrev services : Services ℕ ℕ
services = record {
  fetch = λ request. err (bytes "offline");
  from_utf8 = λ t. ok t;
  parse_json = λ t. err (bytes "not read");
  value_to_json = λ v. ok (bytes "{}");
  activity_to_json = λ a. ok (bytes "{}");
  parse_profile = λ t. err (bytes "not read");
  now_rfc3339 = λ h. bytes "2026-01-01T00:00:00Z";
  generate_uuid = λ h. bytes "u";
  zero = 0;
}

abbrev empty_store : Store ℕ
empty_store = record { execute = λ h sql ps. ok [] }

abbrev following_store : Store ℕ
following_store = record {
  execute = λ h sql ps. ok (
      if contains sql (bytes "FROM following")
      then Members.member (bytes "count") (Value.number 1) Members.end ∷ []
      else []);
}

abbrev with_object : Text → Value ℕ → Activity ℕ
with_object kind note = record {
  context = Value.null;
  activity_type = kind;
  id = bytes "https://a.example/1";
  actor = bytes "https://a.example/u";
  object = some note;
  target = none;
  to = none;
  cc = none;
  published = none;
  extra = Members.end;
}

abbrev typed : Text → Value ℕ
typed kind = Value.object (
    Members.member (bytes "type") (Value.string kind)
      (Members.member (bytes "id") (Value.string (bytes "n")) Members.end))

process_inbox_activity_unfollowed_example :
    All
      (Omits (bytes "timeline_posts"))
      (process_inbox_activity sample empty_store services urls
        (with_object (bytes "Create") (typed (bytes "Note")))
        (bytes "me")
        none
        []).1
unfolding dais.Activitypub.Inbox.Questions.is_accepted_following
    dais.Activitypub.Federation.run_query dais.Activitypub.Federation.has_count dais.Json.get_member
    dais.Base.text_eq bytes sample
process_inbox_activity_unfollowed_example =
    process_inbox_activity_unfollowed sample empty_store services urls
      (with_object (bytes "Create") (typed (bytes "Note"))) (bytes "me") none (λ e. cc (e))

-- A note with an envelope of a version that is not supported.
abbrev unreadable : Value ℕ
unreadable = Value.object (
    Members.member (bytes "daisEncryptedMessage")
      (Value.object (Members.member (bytes "v") (Value.number 9) Members.end))
      (Members.member (bytes "type") (Value.string (bytes "Note")) Members.end))

process_inbox_activity_unsupported_example :
    All
      (Omits (bytes "e2ee_"))
      (process_inbox_activity sample empty_store services urls
        (with_object (bytes "Create") unreadable)
        (bytes "me")
        none
        []).1
unfolding dais.Activitypub.Envelope.supported dais.Activitypub.Inbox.Objects.member_of dais.Json.get
    dais.Base.text_eq bytes dais.Json.get_member dais.Activitypub.Envelope.is_supported_envelope
    sample dais.Json.as_object dais.Json.as_str
process_inbox_activity_unsupported_example =
    process_inbox_activity_unsupported sample empty_store services urls
      (with_object (bytes "Create") unreadable) (bytes "me") none refl

process_inbox_activity-StoresSafe_example :
    All StoresSafe
      (process_inbox_activity sample following_store services urls
        (with_object (bytes "Create") (typed (bytes "Note")))
        (bytes "me")
        none
        []).1
process_inbox_activity-StoresSafe_example =
    process_inbox_activity-StoresSafe sample following_store services urls
      (with_object (bytes "Create") (typed (bytes "Note"))) (bytes "me") none

process_inbox_activity_gate_example :
    (is_blocked_actor sample (moment empty_store []) urls (bytes "https://a.example/u") ≡ ok false)
    × (is_federation_host_allowed sample (moment empty_store []) urls (bytes "https://a.example/u")
        ≡ ok true)
unfolding process_inbox_activity dais.Activitypub.Inbox.Process.dispatch
    dais.Activitypub.Inbox.Follows.handle_accept dais.Activitypub.Inbox.Objects.object_str
    dais.Activitypub.Inbox.Objects.member_of dais.Json.get dais.Json.as_str dais.Store.◌>>=◌
    dais.Store.reads dais.Store.perform dais.Activitypub.Federation.is_blocked_actor
    dais.Activitypub.Federation.actor_domain dais.Activitypub.Federation.require_https_url
    is_federation_host_allowed dais.Activitypub.Federation.is_closed_network_enabled
    dais.Activitypub.Federation.run_query dais.Activitypub.Federation.has_count dais.Json.get_member
    dais.Base.text_eq bytes sample
process_inbox_activity_gate_example =
    process_inbox_activity_gate sample empty_store services urls
      (with_object (bytes "Accept") (typed (bytes "Follow"))) (bytes "me") none [] (λ e. cc (e))

handle_update_any_author_example :
    handle_update sample following_store services
      (by (bytes "p") (with_object (bytes "Update") (typed (bytes "Note"))))
      []
    ≡ handle_update sample following_store services
        (by (bytes "q") (with_object (bytes "Update") (typed (bytes "Note"))))
        []
unfolding dais.Activitypub.Inbox.Questions.is_accepted_following
    dais.Activitypub.Federation.run_query dais.Activitypub.Federation.has_count dais.Json.get_member
    dais.Base.text_eq bytes sample contains dais.Base.starts_with
handle_update_any_author_example =
    handle_update_any_author sample following_store services
      (with_object (bytes "Update") (typed (bytes "Note"))) (bytes "p") (bytes "q") [] refl refl

handle_undo_any_actor_example :
    handle_undo empty_store (by (bytes "p") (with_object (bytes "Undo") (typed (bytes "Like"))))
    ≡ handle_undo empty_store (by (bytes "q") (with_object (bytes "Undo") (typed (bytes "Like"))))
unfolding bytes dais.Activitypub.Inbox.Objects.object_str dais.Activitypub.Inbox.Objects.member_of
    dais.Json.get dais.Json.as_str dais.Base.text_eq
handle_undo_any_actor_example =
    handle_undo_any_actor empty_store (with_object (bytes "Undo") (typed (bytes "Like")))
      (bytes "p") (bytes "q") (λ e. cc (e))

hash_input_exact_example :
    (hash_input (sorted_participants (bytes "a") (bytes "b"))
      ≡ hash_input (sorted_participants (bytes "b") (bytes "a")))
    ↔ (((bytes "a" ≡ bytes "b") × (bytes "b" ≡ bytes "a"))
        ⊎ ((bytes "a" ≡ bytes "a") × (bytes "b" ≡ bytes "b")))
unfolding bytes
hash_input_exact_example =
    hash_input_exact (bytes "a") (bytes "b") (bytes "b") (bytes "a") (refl, tt) (refl, tt)
      (refl, tt) (refl, tt)
