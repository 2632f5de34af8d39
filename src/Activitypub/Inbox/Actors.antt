-- ===== src/Activitypub/Inbox/Actors.antt =====
-- The profile of a remote actor: `extract_actor_info`, `fetch_actor_delivery_info`
-- of core/src/activitypub/inbox.rs.
use dais.Base.{
  Text, bytes, [], ◌∷◌, ◌++◌, Option, none, some, true, ◌||◌, ltb, leb, CoreResult, ok, err,
  platform, serialization, internal, map_err, if◌then◌else◌, trim_end_matches, ◌>>=◌,
}
use dais.Json.{Value, get, as_str, or_default}
use dais.Activitypub.Types.{Request, Method, Response, Services}

pub record ActorDeliveryInfo : Type 0 where
  pub inbox : Text
  pub shared_inbox : Option Text

unfoldable pub fallback_actor_inbox : Text → Text
fallback_actor_inbox actor_url = trim_end_matches 47 actor_url ++ bytes "/inbox"

-- A request for an actor's document.
unfoldable pub actor_request : Text → Text → Request
actor_request accept actor_url = record {
  url = actor_url;
  method = Method.get;
  headers = (bytes "Accept", accept) ∷ [];
  body = none;
  timeout = some 30;
  follow_redirects = true;
}

-- The name, the display name and the avatar.
abbrev pub ActorInfo : Type 0
ActorInfo = Text × Text × Text

unfoldable pub text_or_empty : Option Text → Text
text_or_empty none = []
text_or_empty (some t) = t

nonempty : Option Text → Option Text
nonempty none = none
nonempty (some []) = none
nonempty (some (c ∷ t)) = some (c ∷ t)

get_of : {N : Type 0} → Text → Option (Value N) → Option (Value N)
get_of key none = none
get_of key (some v) = get key v

module _ {F N : Type 0} (s : Services F N) where
  utf8_text : Response → CoreResult Text
  utf8_text response =
      map_err (λ e. serialization (bytes "Invalid UTF-8: " ++ e)) (s.from_utf8 response.body)

  info_of : Response → CoreResult ActorInfo
  unfolding utf8_text
  info_of response =
      if ltb response.status 200 || leb 300 response.status
      then ok (bytes "unknown", bytes "Unknown User", [])
      else do
        json_str ← utf8_text response
        actor ←
            map_err (λ e. internal (bytes "Failed to parse actor profile"))
              (s.parse_profile json_str)
        ok (
          actor.preferred_username,
          or_default actor.name (bytes "Unknown"),
          text_or_empty actor.icon,
        )

  unfoldable pub extract_actor_info : Text → CoreResult ActorInfo
  unfolding info_of
  extract_actor_info actor_url =
      map_err platform (s.fetch (actor_request (bytes "application/activity+json") actor_url))
      >>= info_of

  unfoldable pub actor_delivery_info_from_json : Text → Text → CoreResult ActorDeliveryInfo
  unfolding nonempty get_of
  actor_delivery_info_from_json actor_url json_str = do
    value ← map_err serialization (s.parse_json json_str)
    ok record {
      inbox =
          or_default (nonempty (as_str (get (bytes "inbox") value)))
            (fallback_actor_inbox actor_url);
      shared_inbox =
          nonempty (as_str (get_of (bytes "sharedInbox") (get (bytes "endpoints") value)));
    }

  delivery_info_of : Text → Response → CoreResult ActorDeliveryInfo
  unfolding utf8_text
  delivery_info_of actor_url response =
      if ltb response.status 200 || leb 300 response.status
      then ok record { inbox = fallback_actor_inbox actor_url; shared_inbox = none }
      else utf8_text response >>= actor_delivery_info_from_json actor_url

  unfoldable pub fetch_actor_delivery_info : Text → CoreResult ActorDeliveryInfo
  unfolding delivery_info_of
  fetch_actor_delivery_info actor_url =
      map_err platform
        (s.fetch (actor_request (bytes "application/activity+json, application/ld+json") actor_url))
      >>= delivery_info_of actor_url

  -- A handler goes on without the profile when it cannot be had.
  info_or : CoreResult ActorInfo → ActorInfo
  info_or (ok info) = info
  info_or (err e) = (bytes "unknown", bytes "Unknown", [])

  unfoldable pub actor_info_or_unknown : Text → ActorInfo
  unfolding info_or
  actor_info_or_unknown actor_url = info_or (extract_actor_info actor_url)
