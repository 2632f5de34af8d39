-- ===== src/Activitypub/Tests.antt =====
-- Posts and hosts on which the policies are run.
use dais.Base.{
  ℕ, Text, bytes, [], ◌∷◌, some, none, true, false, ok, ◌≡◌, ◌⊎◌, inr, refl, ◌≢◌, invalid_activity,
  ◌++◌, text_eq,
}
use dais.Json.{Value, Members}
use dais.Sample.{sample}
use dais.Activitypub.Security.{can_fetch_post, requires_authorized_post_fetch}
use dais.Activitypub.Security.Policy.{
  InClear, can_fetch_post_sound, can_fetch_post_complete, can_fetch_post_anonymous,
}
use dais.Activitypub.Federation.{
  Database, Urls, require_https_url, is_closed_network_enabled, is_federation_host_allowed,
}
use dais.Activitypub.Federation.Hosts.{IsListed, is_federation_host_allowed_sound}

can_fetch_post_sound_example :
    InClear none (bytes "hello")
    × ((bytes "followers" ≡ bytes "public")
        ⊎ ((true ≡ true)
            × (bytes "followers" ≢ bytes "unlisted")
            × (bytes "followers" ≢ bytes "direct")))
unfolding bytes can_fetch_post dais.Activitypub.Security.is_anonymous_public_post text_eq
    dais.Activitypub.Security.is_none dais.Base.contains
    dais.Activitypub.Security.e2ee_fallback_marker dais.Activitypub.Security.fetch_under
    dais.Activitypub.Security.read_policy_from_visibility
can_fetch_post_sound_example =
    can_fetch_post_sound (bytes "followers") none (bytes "hello") true refl

can_fetch_post_complete_example :
    can_fetch_post (bytes "followers") none (bytes "hello") true ≡ true
unfolding bytes dais.Activitypub.Security.is_none dais.Base.contains
    dais.Activitypub.Security.e2ee_fallback_marker text_eq
can_fetch_post_complete_example =
    can_fetch_post_complete (bytes "followers") none (bytes "hello") true (refl, refl)
      (inr (refl, (λ e. cc (e)), (λ e. cc (e))))

can_fetch_post_anonymous_example :
    requires_authorized_post_fetch (bytes "public") none (bytes "hello") ≡ false
unfolding bytes can_fetch_post dais.Activitypub.Security.is_anonymous_public_post text_eq
    dais.Activitypub.Security.is_none dais.Base.contains
    dais.Activitypub.Security.e2ee_fallback_marker
can_fetch_post_anonymous_example =
    can_fetch_post_anonymous (bytes "public") none (bytes "hello") refl

-- URLs that are all of one host.
abbrev urls : Urls Text
urls = record {
  parse = λ t. ok t;
  scheme = λ u. bytes "https";
  host_str = λ u. some (bytes "b.example");
}

-- A database of a closed network, whose allowlist has every host.
abbrev closed_row : Members ℕ
closed_row =
    Members.member (bytes "closed_network") (Value.number 1)
      (Members.member (bytes "count") (Value.number 1) Members.end)

abbrev closed : Database ℕ
closed = record { execute = λ query params. ok (closed_row ∷ []) }

is_federation_host_allowed_sound_example :
    (is_closed_network_enabled sample closed ≡ ok false)
    ⊎ ((url : Text) × (host : Text) × (urls.parse (bytes "https://b.example/u") ≡ ok url)
        × (urls.scheme url ≡ bytes "https")
        × (urls.host_str url ≡ some host)
        × IsListed sample closed urls host)
unfolding bytes sample is_federation_host_allowed is_closed_network_enabled dais.Json.get_member
    dais.Activitypub.Federation.actor_domain dais.Activitypub.Federation.host_of require_https_url
    dais.Activitypub.Federation.allowed_host dais.Activitypub.Federation.run_query
    dais.Activitypub.Federation.has_count text_eq
is_federation_host_allowed_sound_example =
    is_federation_host_allowed_sound sample closed urls (bytes "https://b.example/u") refl
