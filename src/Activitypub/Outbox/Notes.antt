-- ===== src/Activitypub/Outbox/Notes.antt =====
-- `build_note_object` of core/src/activitypub/outbox.rs. An object has its keys in order.
use dais.Base.{
  ℕ, Text, bytes, List, [], ◌∷◌, ◌++◌, Option, none, some, Bool, Result, ok, err, if◌then◌else◌,
  text_eq, text_cmp, lt, eq, gt, length,
}
use dais.Ipld.{pos}
use dais.Json.{Value, Values, Members}
use dais.Formats.{Formats}
use dais.Activitypub.Types.{Services}
use dais.Activitypub.Inbox.Objects.{public_address}
use dais.Activitypub.Outbox.Tags.{activity_tags, parse_poll_options, poll_option_values}

pub record Post : Type 0 where
  pub id : Text
  pub actor_id : Text
  pub content : Text
  pub content_html : Option Text
  pub object_type : Text
  pub name : Option Text
  pub summary : Option Text
  pub start_time : Option Text
  pub end_time : Option Text
  pub location : Option Text
  pub poll_options : Option Text
  pub visibility : Text
  pub published_at : Text
  pub in_reply_to : Option Text
  pub media_attachments : Option Text
  pub atproto_uri : Option Text
  pub encrypted_message : Option Text

pub record Reply : Type 0 where
  pub actor_username : Text
  pub actor_display_name : Text
  pub actor_avatar_url : Text
  pub content : Text
  pub published_at : Text

pub record Interaction : Type 0 where
  pub actor_username : Text
  pub actor_display_name : Text
  pub actor_avatar_url : Text
  pub created_at : Option Text

pub record PostInteractions : Type 0 where
  pub replies : List Reply
  pub likes : List Interaction
  pub boosts : List Interaction

unfoldable pub note_audience : Text → Text → List Text × List Text
note_audience visibility followers_collection =
    if text_eq visibility (bytes "public")
    then (public_address ∷ [], followers_collection ∷ [])
    else if text_eq visibility (bytes "unlisted")
    then (followers_collection ∷ [], public_address ∷ [])
    else if text_eq visibility (bytes "direct")
    then ([], [])
    else (followers_collection ∷ [], [])

module _ {N : Type 0} where
  -- `note[key] = value`
  unfoldable pub set_member : Text → Value N → Members N → Members N
  set_member k v Members.end = Members.member k v Members.end
  set_member k v (Members.member j w rest) =
      let more = Members.member j w (set_member k v rest) in
      elim (text_cmp k j) [
        | lt ↦ Members.member k v (Members.member j w rest)
        | eq ↦ Members.member k v rest
        | gt ↦ more
      ]

  unfoldable pub set_some : Text → Option (Value N) → Members N → Members N
  set_some k none m = m
  set_some k (some v) m = set_member k v m

  text_value : Option Text → Option (Value N)
  text_value none = none
  text_value (some t) = some (Value.string t)

  language_map : Option Text → Option (Value N)
  language_map none = none
  language_map (some t) =
      some (Value.object (Members.member (bytes "en") (Value.string t) Members.end))

  place_of : Option Text → Option (Value N)
  place_of none = none
  place_of (some t) = some (
      Value.object (
        Members.member (bytes "name") (Value.string t)
          (Members.member (bytes "type") (Value.string (bytes "Place")) Members.end)))

  unfoldable pub values_of : List Text → Values N
  values_of [] = Values.nil
  values_of (t ∷ more) = Values.cons (Value.string t) (values_of more)

  list_values : List (Value N) → Values N
  list_values [] = Values.nil
  list_values (v ∷ more) = Values.cons v (list_values more)

  tags_value : List (Value N) → Option (Value N)
  unfolding list_values
  tags_value [] = none
  tags_value (v ∷ more) = some (Value.array (list_values (v ∷ more)))

module _ {C F N : Type 0} (x : Formats C F N) (s : Services F N) where
  collection : Text → ℕ → Value N
  collection id total_items = Value.object (
      Members.member (bytes "id") (Value.string id) (
        Members.member (bytes "totalItems") (Value.number (x.from_i64 (pos total_items)))
          (Members.member (bytes "type") (Value.string (bytes "Collection")) Members.end)))

  -- The members that every note has.
  unfoldable pub base_members : Post → PostInteractions → Members N
  unfolding collection values_of
  base_members post interactions =
      let (to, cc) = note_audience post.visibility (post.actor_id ++ bytes "/followers") in
      Members.member (bytes "@context")
        (Value.string (bytes "https://www.w3.org/ns/activitystreams"))
        (Members.member (bytes "attributedTo") (Value.string post.actor_id) (
          Members.member (bytes "cc") (Value.array (values_of cc)) (
            Members.member (bytes "content") (Value.string post.content) (
              Members.member (bytes "id") (Value.string post.id) (
                Members.member (bytes "likes")
                  (collection (post.id ++ bytes "/likes") (length interactions.likes))
                  (Members.member (bytes "published") (Value.string post.published_at) (
                    Members.member (bytes "replies")
                      (collection (post.id ++ bytes "/replies") (length interactions.replies))
                      (Members.member (bytes "shares")
                        (collection (post.id ++ bytes "/shares") (length interactions.boosts))
                        (Members.member (bytes "to") (Value.array (values_of to)) (
                          Members.member (bytes "type") (Value.string post.object_type) (
                            Members.member (bytes "url") (Value.string post.id)
                              Members.end)))))))))))

  parsed : Result Text (Value N) → Option (Value N)
  parsed (ok v) = some v
  parsed (err e) = none

  -- A JSON text that is left out if it does not parse.
  json_value : Option Text → Option (Value N)
  unfolding parsed
  json_value none = none
  json_value (some t) = parsed (s.parse_json t)

  unfoldable pub set_poll : Option (Bool × List Text) → Members N → Members N
  set_poll none m = m
  set_poll (some (multiple, options)) m =
      set_member (bytes "votersCount") (Value.number (x.from_i64 (pos 0))) (
        set_member (if multiple then bytes "anyOf" else bytes "oneOf")
          (Value.array (poll_option_values x options)) m)

  unfoldable pub set_poll_of : Option Text → Members N → Members N
  unfolding set_poll
  set_poll_of none m = m
  set_poll_of (some poll_options) m = set_poll (parse_poll_options s poll_options) m

  unfoldable pub note_members : Post → PostInteractions → Members N
  unfolding set_poll_of set_some text_value language_map place_of json_value tags_value
  note_members post interactions =
      set_some (bytes "daisEncryptedMessage") (json_value post.encrypted_message) (
        set_some (bytes "tag") (tags_value (activity_tags post.content)) (
          set_some (bytes "attachment") (json_value post.media_attachments) (
            set_some (bytes "inReplyTo") (text_value post.in_reply_to) (
              set_poll_of post.poll_options (
                set_some (bytes "location") (place_of post.location) (
                  set_some (bytes "endTime") (text_value post.end_time) (
                    set_some (bytes "startTime") (text_value post.start_time) (
                      set_some (bytes "summary") (text_value post.summary) (
                        set_some (bytes "name") (text_value post.name) (
                          set_some (bytes "contentMap") (language_map post.content_html)
                            (base_members post interactions)))))))))))

  unfoldable pub build_note_object : Post → Option PostInteractions → Value N
  build_note_object post none =
      Value.object (note_members post (record { replies = []; likes = []; boosts = [] }))
  build_note_object post (some interactions) = Value.object (note_members post interactions)
