-- ===== src/Activitypub/Signatures/Keys.antt =====
-- `fetch_actor_public_key` of core/src/activitypub/signatures.rs. The derived deserialisation of the
-- actor's public key is a parameter.
use dais.Base.{
  Text, bytes, ◌++◌, Result, CoreResult, err, platform, internal, serialization, map_err, ltb, leb,
  ◌||◌, decimal, if◌then◌else◌, ◌>>=◌,
}
use dais.Activitypub.Types.{Response, Services}
use dais.Activitypub.Inbox.Actors.{actor_request}

module _ {F N : Type 0} (s : Services F N) (parse_public_key : Text → Result Text Text) where
  unfoldable pub key_of : Response → CoreResult Text
  key_of response =
      if ltb response.status 200 || leb 300 response.status
      then err (internal (bytes "Failed to fetch actor: HTTP " ++ decimal response.status))
      else do
        actor_json ←
            map_err (λ e. serialization (bytes "Invalid UTF-8: " ++ e)) (s.from_utf8 response.body)
        map_err serialization (parse_public_key actor_json)

  unfoldable pub fetch_actor_public_key : Text → CoreResult Text
  fetch_actor_public_key actor_url =
      map_err platform (s.fetch (actor_request (bytes "application/activity+json") actor_url))
      >>= key_of
