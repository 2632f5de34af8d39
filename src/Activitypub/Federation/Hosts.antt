-- ===== src/Activitypub/Federation/Hosts.antt =====
-- Which URLs are trusted: what `require_https_url` lets through, and the hosts of a closed network.
use dais.Base.{
  Text, bytes, true, false, ◌≡◌, arith, ok, text_eq_iff, List, [], ◌∷◌, Option, none, some, refl,
  ap, ◌∙◌, inl, inr, ◌⊎◌, Result-cases, Bool-cases, >>=-eq-ok, ok-injective,
}
use dais.Json.{Value, Members}
use dais.Formats.{Formats}
use dais.Activitypub.Federation.{
  Database, Urls, require_https_url, actor_domain, host_of, allowed_host, is_closed_network_enabled,
  is_federation_host_allowed, run_query, has_count, select_allowed_host,
}

module _ {U : Type 0} (urls : Urls U) where
  -- A URL that is let through parses, and its scheme is `https`.
  pub require_https_url_sound :
      (value : Text) (url : U)
      → require_https_url urls value ≡ ok url
      → (urls.parse value ≡ ok url) × (urls.scheme url ≡ bytes "https")
  unfolding require_https_url
  require_https_url_sound value url h =
      ground (arith, text_eq_iff (urls.scheme url) (bytes "https"))

module _ {C F N U : Type 0} (x : Formats C F N) (db : Database N) (urls : Urls U) where
  -- The allowlist has the host.
  abbrev pub IsListed : Text → Type 0
  IsListed host =
      (rows : List (Members N)) × (run_query x db select_allowed_host (Value.string host ∷ [])
        ≡ ok rows)
      × (has_count x db rows ≡ true)

  allowed_host-cases :
      (o : Option Text)
      → allowed_host x db urls o ≡ ok true
      → (host : Text) × (o ≡ some host) × IsListed host
  unfolding allowed_host
  allowed_host-cases none h = cc
  allowed_host-cases (some host) h =
      let (rows, e, h') =
        >>=-eq-ok (run_query x db select_allowed_host (Value.string host ∷ [])) _ h in
      (host, refl, (rows, e, ok-injective h'))

  actor_domain-cases :
      (remote_url host : Text)
      → actor_domain urls remote_url ≡ some host
      → (url : U) × (urls.parse remote_url ≡ ok url)
        × (urls.scheme url ≡ bytes "https")
        × (urls.host_str url ≡ some host)
  unfolding actor_domain host_of
  actor_domain-cases remote_url host h = elim (Result-cases (require_https_url urls remote_url)) [
    | inr (e, refused) ↦ let bad = (rw refused at h) in cc (bad)
    | inl (url, e) ↦
        let (parsed, https) = require_https_url_sound urls remote_url url e in
        (url, parsed, https, (rw e at h))
  ]

  -- A URL is allowed only if the network is open, or the URL parses, has the scheme `https` and a host
  -- that the allowlist has.
  pub is_federation_host_allowed_sound :
      (remote_url : Text)
      → is_federation_host_allowed x db urls remote_url ≡ ok true
      → (is_closed_network_enabled x db ≡ ok false)
        ⊎ ((url : U) × (host : Text) × (urls.parse remote_url ≡ ok url)
            × (urls.scheme url ≡ bytes "https")
            × (urls.host_str url ≡ some host)
            × IsListed host)
  unfolding is_federation_host_allowed
  is_federation_host_allowed_sound remote_url h =
      let (closed, e, h') = >>=-eq-ok (is_closed_network_enabled x db) _ h in
      elim (Bool-cases closed) [
        | inr off ↦ inl (e ∙ ap ok off)
        | inl on ↦
            let (host, named, listed) =
              allowed_host-cases (actor_domain urls remote_url) (rw on at h') in
            let (url, parsed, https, at_host) = actor_domain-cases remote_url host named in
            inr (url, host, parsed, https, at_host, listed)
      ]
