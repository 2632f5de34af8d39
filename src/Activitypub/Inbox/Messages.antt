-- ===== src/Activitypub/Inbox/Messages.antt =====
-- Direct messages, in the clear and encrypted: `handle_direct_message` and
-- `persist_e2ee_direct_message` of core/src/activitypub/inbox.rs.
use dais.Base.{
  Text, bytes, List, [], ◌∷◌, Option, none, some, map_err, internal, is_blank, not, if◌then◌else◌,
}
use dais.Json.{Value, Values, Members, get, as_str, or_default}
use dais.Formats.{Formats}
use dais.Store.{Store, Exec, pure, lift, perform, for_each, ◌>>=◌, ◌>>◌}
use dais.Activitypub.Types.{Activity, Services}
use dais.Activitypub.Envelope.{supported, dais_mls_protocol}
use dais.Activitypub.Inbox.Queries.{
  insert_conversation, update_conversation, insert_participant, insert_direct_message,
  insert_e2ee_conversation, insert_e2ee_message,
}
use dais.Activitypub.Inbox.Actors.{actor_info_or_unknown}
use dais.Activitypub.Inbox.Notifications.{create_notification}
use dais.Activitypub.Inbox.Objects.{str_member, required_object, member_of}
use dais.Activitypub.Inbox.Conversations.{
  sorted_participants, conversation_id_for, e2ee_conversation_id_for,
}

-- `senderDeviceId`, if it is not blank.
unfoldable pub first_of : Option Text → Option Text → Option Text
first_of none b = b
first_of (some a) b = some a

unfoldable pub known_device : Option Text → Text
known_device none = bytes "unknown"
known_device (some value) = if not (is_blank value) then value else bytes "unknown"

module _ {N : Type 0} where
  unfoldable pub string_values : List Text → Values N
  string_values [] = Values.nil
  string_values (t ∷ more) = Values.cons (Value.string t) (string_values more)

  unfoldable pub sender_device_id : Value N → Text
  unfolding first_of known_device member_of
  sender_device_id note = known_device (
      first_of (as_str (member_of (bytes "senderDeviceId") (get (bytes "daisE2ee") note)))
        (str_member (bytes "senderDeviceId") note))

  -- The additional data, with its keys in order.
  unfoldable pub message_aad : Activity N → Text → Text → Value N
  message_aad activity our_actor_url fallback_content = Value.object (
      Members.member (bytes "activityId") (Value.string activity.id) (
        Members.member (bytes "fallbackContent") (Value.string fallback_content)
          (Members.member (bytes "recipientActorId") (Value.string our_actor_url) Members.end)))

module _ {C F N : Type 0} (x : Formats C F N) (store : Store N) (s : Services F N) where
  unfoldable pub to_json : Value N → Exec N Text
  to_json v = lift (map_err internal (s.value_to_json v))

  unfoldable pub persist_e2ee_direct_message :
      Activity N → Value N → Text → Text → List Text → Text → Text → Value N → Exec N (Unit {0})
  unfolding to_json string_values
  persist_e2ee_direct_message activity note our_actor_url message_id participants published_at
        fallback_content encrypted_message =
      do
        participants_json ← to_json (Value.array (string_values participants))
        encrypted_json ← to_json encrypted_message
        aad_json ← to_json (message_aad activity our_actor_url fallback_content)
        perform store insert_e2ee_conversation (
            Value.string (e2ee_conversation_id_for x participants)
            ∷ Value.string dais_mls_protocol
            ∷ Value.string participants_json
            ∷ Value.string published_at
            ∷ [])
        perform store insert_e2ee_message (
            Value.string message_id
            ∷ Value.string (e2ee_conversation_id_for x participants)
            ∷ Value.string activity.actor
            ∷ Value.string (sender_device_id note)
            ∷ Value.string encrypted_json
            ∷ Value.string aad_json
            ∷ Value.string published_at
            ∷ [])

  -- The encrypted part of a message, when there is one of the supported form.
  unfoldable pub persist_supported :
      Activity N
      → Value N
      → Text
      → Text
      → List Text
      → Text
      → Text
      → Option (Value N)
      → Exec N (Unit {0})
  persist_supported activity note our_actor_url dm_id participants published_at content none =
      pure tt
  persist_supported activity note our_actor_url dm_id participants published_at content
        (some envelope) =
      persist_e2ee_direct_message activity note our_actor_url dm_id participants published_at
        content envelope

  -- The conversation, its participants and the message.
  unfoldable pub store_message : Activity N → Text → Text → Text → List Text → Exec N (Unit {0})
  unfolding to_json string_values
  store_message activity dm_id content published_at participants = do
    participants_json ← to_json (Value.array (string_values participants))
    perform store insert_conversation (
        Value.string (conversation_id_for x participants)
        ∷ Value.string participants_json
        ∷ Value.string published_at
        ∷ [])
    perform store update_conversation
        (Value.string published_at ∷ Value.string (conversation_id_for x participants) ∷ [])
    for_each
        (λ participant.
          perform store insert_participant
            (Value.string (conversation_id_for x participants) ∷ Value.string participant ∷ []))
        participants
    perform store insert_direct_message (
        Value.string dm_id
        ∷ Value.string (conversation_id_for x participants)
        ∷ Value.string activity.actor
        ∷ Value.string content
        ∷ Value.string published_at
        ∷ [])

  unfoldable pub receive_message : Activity N → Text → Value N → Exec N (Unit {0})
  receive_message activity our_actor_url note =
      let dm_id = or_default (str_member (bytes "id") note) activity.id in
      let content = or_default (str_member (bytes "content") note) [] in
      let published_at = or_default (str_member (bytes "published") note) [] in
      let participants = sorted_participants activity.actor our_actor_url in
      store_message activity dm_id content published_at participants
      >> persist_supported activity note our_actor_url dm_id participants published_at content
          (supported x (get (bytes "daisEncryptedMessage") note))
      >> create_notification store s (bytes "mention") activity.actor
          (actor_info_or_unknown s activity.actor) none (some dm_id) (some content)

  unfoldable pub handle_direct_message : Activity N → Text → Exec N (Unit {0})
  unfolding receive_message
  handle_direct_message activity our_actor_url = do
    note ← lift (required_object activity)
    receive_message activity our_actor_url note
