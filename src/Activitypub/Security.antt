-- ===== src/Activitypub/Security.antt =====
-- core/src/activitypub/security.rs: the policy by which a post is shown to a reader.
pub mod Policy
use dais.Base.{
  contains, Text, bytes, [], ◌∷◌, Option, none, some, Bool, true, false, ◌&&◌, ◌||◌, not, text_eq,
  if◌then◌else◌,
}

pub data ReadPolicy : Type 0 where
  public_policy followers_only private_policy : ReadPolicy

unfoldable pub e2ee_fallback_marker : Text
e2ee_fallback_marker = bytes "End-to-end encrypted message"

unfoldable pub is_none : Option Text → Bool
is_none none = true
is_none (some t) = false

unfoldable pub read_policy_from_visibility : Text → ReadPolicy
read_policy_from_visibility visibility =
    if text_eq visibility (bytes "public") || text_eq visibility (bytes "unlisted")
    then public_policy
    else if text_eq visibility (bytes "followers")
    then followers_only
    else if text_eq visibility (bytes "direct")
    then private_policy
    else followers_only

unfoldable pub is_public : ReadPolicy → Bool
is_public public_policy = true
is_public followers_only = false
is_public private_policy = false

-- `matches!(policy, FollowersOnly | Private)`
unfoldable pub requires_authorized_fetch : Text → Bool
unfolding is_public
requires_authorized_fetch visibility = not (is_public (read_policy_from_visibility visibility))

unfoldable pub is_anonymous_public_post : Text → Option Text → Text → Bool
is_anonymous_public_post visibility encrypted_message content =
    text_eq visibility (bytes "public")
    && is_none encrypted_message
    && not (contains content e2ee_fallback_marker)

unfoldable pub requires_authorized_post_fetch : Text → Option Text → Text → Bool
requires_authorized_post_fetch visibility encrypted_message content =
    requires_authorized_fetch visibility
    || not (is_none encrypted_message)
    || contains content e2ee_fallback_marker

-- The last `match` of `can_fetch_post`.
unfoldable pub fetch_under : ReadPolicy → Option Text → Text → Bool → Bool
fetch_under public_policy encrypted_message content requester_is_approved_follower = false
fetch_under followers_only encrypted_message content requester_is_approved_follower =
    requester_is_approved_follower
    && is_none encrypted_message
    && not (contains content e2ee_fallback_marker)
fetch_under private_policy encrypted_message content requester_is_approved_follower = false

unfoldable pub can_fetch_post : Text → Option Text → Text → Bool → Bool
can_fetch_post visibility encrypted_message content requester_is_approved_follower =
    if is_anonymous_public_post visibility encrypted_message content
    then true
    else fetch_under (read_policy_from_visibility visibility) encrypted_message content
        requester_is_approved_follower
