-- ===== src/Webfinger.antt =====
-- core/src/webfinger.rs: the answer to a WebFinger request, which names the owner's actor.
pub mod Handles
mod Tests
use dais.Base.{
  strip_prefix, split, ℕ, Text, bytes, List, [], ◌∷◌, ◌++◌, Option, none, some, Bool, CoreResult,
  CoreError, invalid_activity, not_found, ok, err, ok_or, map, text_eq, not, ◌&&◌, ◌==◌,
  if◌then◌else◌, ◌>>=◌, ◌>>◌,
}
use dais.Json.{Value, Members}
use dais.Formats.{Formats}
use dais.Activitypub.Federation.{Database, run_query}

pub record WebFingerLink : Type 0 where
  pub rel : Text
  pub link_type : Text
  pub href : Text

pub record WebFingerResponse : Type 0 where
  pub subject : Text
  pub aliases : List Text
  pub links : List WebFingerLink

-- The parts of `acct:user@domain`.
unfoldable pub two_parts : Text × List Text → CoreResult (Text × Text)
two_parts (username, domain ∷ []) = ok (username, domain)
two_parts (username, parts) =
    err (invalid_activity (bytes "Invalid account format. Expected user@domain"))

unfoldable pub parse_account : Text → CoreResult (Text × Text)
unfolding two_parts
parse_account resource = do
  account ←
      ok_or (invalid_activity (bytes "Invalid resource format. Expected acct:user@domain"))
        (strip_prefix (bytes "acct:") resource)
  two_parts (split 64 account)

unfoldable pub response_for : Text → Text → Text → WebFingerResponse
response_for configured_domain activitypub_domain username =
    let actor = bytes "https://" ++ activitypub_domain ++ bytes "/users/" ++ username in
    record {
      subject = bytes "acct:" ++ (username ++ (bytes "@" ++ configured_domain));
      aliases = actor ∷ [];
      links =
          record { rel = bytes "self"; link_type = bytes "application/activity+json"; href = actor }
          ∷ record {
            rel = bytes "http://webfinger.net/rel/profile-page";
            link_type = bytes "text/html";
            href = bytes "https://" ++ configured_domain ++ bytes "/@" ++ username;
          }
          ∷ [];
    }

module _ {C F N : Type 0} (x : Formats C F N) (db : Database N) where
  -- The query for the user, who must exist.
  require_user : List (Members N) → CoreResult (Unit {0})
  require_user [] = err (not_found (bytes "User not found"))
  require_user (row ∷ rows) = ok tt

  unfoldable pub find_user : Text → CoreResult (Unit {0})
  unfolding require_user
  find_user username = do
    rows ←
        run_query x db (bytes "SELECT username FROM actors WHERE username = ?1")
          (Value.string username ∷ [])
    require_user rows

  -- What follows the parsing of the resource.
  unfoldable pub answer : Text → Text → Text × Text → CoreResult WebFingerResponse
  answer configured_domain activitypub_domain (username, domain) =
      if not (text_eq domain configured_domain) && not (text_eq domain activitypub_domain)
      then err (not_found (bytes "Domain not found"))
      else find_user username >>= λ u.
          ok (response_for configured_domain activitypub_domain username)

  unfoldable pub handle_webfinger : Text → Text → Text → CoreResult WebFingerResponse
  handle_webfinger resource configured_domain activitypub_domain =
      parse_account resource >>= answer configured_domain activitypub_domain
