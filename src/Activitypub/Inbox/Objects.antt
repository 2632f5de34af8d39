-- ===== src/Activitypub/Inbox/Objects.antt =====
-- What the handlers of core/src/activitypub/inbox.rs read off an activity's object.
use dais.Base.{
  Text, bytes, List, [], ◌∷◌, Option, none, some, Bool, false, ◌&&◌, ◌||◌, not, text_eq, CoreResult,
  ok, invalid_activity, ok_or, internal, map_err, if◌then◌else◌, ◌>>=◌,
}
use dais.Json.{Value, get, as_str, as_array}
use dais.Formats.{Formats}
use dais.Activitypub.Types.{Activity, Services}
use dais.Activitypub.Envelope.{supported}

-- `activity.object.as_ref().and_then(|o| o.get(key)).and_then(|v| v.as_str())`
unfoldable pub member_of : {N : Type 0} → Text → Option (Value N) → Option (Value N)
member_of key none = none
member_of key (some v) = get key v

is_text : Text → Option Text → Bool
is_text wanted none = false
is_text wanted (some t) = text_eq t wanted

module _ {N : Type 0} where
  unfoldable pub object_str : Text → Activity N → Option Text
  unfolding member_of
  object_str key activity = as_str (member_of key activity.object)

  unfoldable pub str_member : Text → Value N → Option Text
  str_member key note = as_str (get key note)

  -- `iter().any(|value| value.as_str() == Some(wanted))`
  unfoldable pub has_str : Text → List (Value N) → Bool
  unfolding is_text
  has_str wanted [] = false
  has_str wanted (v ∷ vs) = is_text wanted (as_str (some v)) || has_str wanted vs

abbrev pub public_address : Text
public_address = bytes "https://www.w3.org/ns/activitystreams#Public"

unfoldable pub is_timeline_object_type : Text → Bool
is_timeline_object_type object_type =
    text_eq object_type (bytes "Note") || text_eq object_type (bytes "Question")

module _ {N : Type 0} where
  unfoldable pub note_object_id : Activity N → CoreResult Text
  note_object_id activity =
      ok_or (invalid_activity (bytes "Missing Note id")) (object_str (bytes "id") activity)

  unfoldable pub any_str : Text → Option (List (Value N)) → Bool
  any_str wanted none = false
  any_str wanted (some values) = has_str wanted values

  unfoldable pub infer_note_visibility : Value N → Text
  unfolding any_str
  infer_note_visibility note =
      if any_str public_address (as_array (get (bytes "to") note))
      then bytes "public"
      else if any_str public_address (as_array (get (bytes "cc") note))
      then bytes "unlisted"
      else bytes "followers"

  to_us_only : Text → Option (List (Value N)) → Bool
  to_us_only our_actor_url none = false
  to_us_only our_actor_url (some to_array) =
      has_str our_actor_url to_array && not (has_str public_address to_array)

  -- The recipients name our actor, and not the public.
  unfoldable pub is_dm : Text → Value N → Bool
  unfolding to_us_only
  is_dm our_actor_url note = to_us_only our_actor_url (as_array (get (bytes "to") note))

  unfoldable pub required_object : Activity N → CoreResult (Value N)
  required_object activity = ok_or (invalid_activity (bytes "Missing object")) activity.object

module _ {C F N : Type 0} (x : Formats C F N) (s : Services F N) where
  to_text : Option (Value N) → CoreResult (Option Text)
  to_text none = ok none
  to_text (some envelope) = do text ← map_err internal (s.value_to_json envelope); ok (some text)

  unfoldable pub supported_encrypted_message : Value N → CoreResult (Option Text)
  unfolding to_text
  supported_encrypted_message note = to_text (supported x (get (bytes "daisEncryptedMessage") note))
