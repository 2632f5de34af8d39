-- ===== src/Activitypub/Federation.antt =====
-- core/src/activitypub/security.rs: the blocks, followers and allowed hosts that the database
-- holds, and `require_https_url`.
pub mod Hosts
use dais.Base.{
  ℕ, ◌<◌, Text, bytes, List, [], ◌∷◌, ◌++◌, Option, none, some, Bool, true, false, CoreResult,
  Result, ok, err, CoreError, platform, invalid_activity, map_err, ltb, text_eq, not, ◌&&◌,
  if◌then◌else◌, ◌>>=◌,
}
use dais.Ipld.{ℤ, pos, negsuc}
use dais.Json.{Value, Members}
use dais.Json.Access.{get_member}
use dais.Formats.{Formats}

abbrev pub select_allowed_host : Text
select_allowed_host =
    bytes
      "\n        SELECT COUNT(*) AS count\n        FROM federation_allowlist\n        WHERE host = ?1\n          AND enabled = 1\n    "

-- A database at one moment: `execute` with a query and its parameters. `PlatformError` is its text.
pub record Database (N : Type 0) : Type 0 where
  pub execute : Text → List (Value N) → Result Text (List (Members N))

-- The crate `url`: `Url::parse`, `scheme`, and `host_str`.
pub record Urls (U : Type 0) : Type 0 where
  pub parse : Text → Result Text U
  pub scheme : U → Text
  pub host_str : U → Option Text

module _ {U : Type 0} (urls : Urls U) where
  unfoldable pub require_https_url : Text → CoreResult U
  require_https_url value = do
    url ← map_err (λ e. invalid_activity (bytes "Invalid actor URL: " ++ value)) (urls.parse value)
    if not (text_eq (urls.scheme url) (bytes "https"))
        then err (invalid_activity (bytes "Actor URL must use https: " ++ value))
        else ok url

  unfoldable pub host_of : CoreResult U → Option Text
  host_of (ok url) = urls.host_str url
  host_of (err e) = none

  unfoldable pub actor_domain : Text → Option Text
  unfolding host_of
  actor_domain actor_url = host_of (require_https_url actor_url)

module _ {C F N : Type 0} (x : Formats C F N) (db : Database N) where
  unfoldable pub run_query : Text → List (Value N) → CoreResult (List (Members N))
  run_query query params = map_err platform (db.execute query params)

  -- `rows.first().and_then(|row| row.get(column))`
  first_value : Text → List (Members N) → Option (Value N)
  first_value column [] = none
  first_value column (row ∷ rest) = get_member column row

  count_of : Option (Value N) → ℕ
  count_of (some (Value.number n)) = elim (x.as_u64 n) [ some k ↦ k | none ↦ 0 ]
  count_of o = 0

  flag_of : Option (Value N) → ℤ
  flag_of (some (Value.number n)) = elim (x.as_i64 n) [ some k ↦ k | none ↦ pos 0 ]
  flag_of o = pos 0

  is_one : ℤ → Bool
  is_one (pos n) = ltb 0 n && ltb n 2
  is_one (negsuc n) = false

  -- A count that is missing, or no number of 64 bits, is 0.
  unfoldable pub has_count : List (Members N) → Bool
  unfolding first_value count_of
  has_count rows = ltb 0 (count_of (first_value (bytes "count") rows))

  unfoldable pub is_approved_follower : Text → CoreResult Bool
  is_approved_follower actor_url = do
    rows ←
        run_query
          (bytes
            "SELECT COUNT(*) as count FROM followers WHERE follower_actor_id = ?1 AND status = 'approved'")
          (Value.string actor_url ∷ [])
    ok (has_count rows)

  closed_of : Result Text (List (Members N)) → Bool
  unfolding first_value flag_of is_one
  closed_of (ok rows) = is_one (flag_of (first_value (bytes "closed_network") rows))
  closed_of (err e) = false

  -- A query that fails leaves the network open.
  unfoldable pub is_closed_network_enabled : CoreResult Bool
  unfolding closed_of
  is_closed_network_enabled = ok (
      closed_of (db.execute (bytes "SELECT closed_network FROM instance_settings WHERE id = 1") []))

  module _ {U : Type 0} (urls : Urls U) where
    blocked_domain : Option Text → CoreResult Bool
    blocked_domain none = ok false
    blocked_domain (some domain) = do
      domain_rows ←
          run_query (bytes "SELECT COUNT(*) AS count FROM blocks WHERE blocked_domain = ?1")
            (Value.string domain ∷ [])
      ok (has_count domain_rows)

    unfoldable pub is_blocked_actor : Text → CoreResult Bool
    unfolding blocked_domain
    is_blocked_actor actor_url = do
      actor_rows ←
          run_query (bytes "SELECT COUNT(*) AS count FROM blocks WHERE actor_id = ?1")
            (Value.string actor_url ∷ [])
      if has_count actor_rows then ok true else blocked_domain (actor_domain urls actor_url)

    unfoldable pub allowed_host : Option Text → CoreResult Bool
    allowed_host none = ok false
    allowed_host (some host) = do
      rows ← run_query select_allowed_host (Value.string host ∷ [])
      ok (has_count rows)

    unfoldable pub is_federation_host_allowed : Text → CoreResult Bool
    unfolding allowed_host
    is_federation_host_allowed remote_url = do
      closed ← is_closed_network_enabled
      if not closed then ok true else allowed_host (actor_domain urls remote_url)
