-- ===== src/Activitypub/Security/Policy.antt =====
-- The readers that `can_fetch_post` lets in.
use mathlib.Core.Path.{subst}
use dais.Base.{
  contains, sym, Text, bytes, Option, Bool, true, false, ◌≡◌, ◌≢◌, ◌⊎◌, refl, arith, text_eq,
  text_eq_iff,
}
use dais.Activitypub.Security.{
  e2ee_fallback_marker, is_none, read_policy_from_visibility, is_public, requires_authorized_fetch,
  is_anonymous_public_post, requires_authorized_post_fetch, fetch_under, can_fetch_post,
}

-- A post in the clear: no ciphertext, and no stand-in text for one.
abbrev pub InClear : Option Text → Text → Type 0
InClear encrypted_message content =
    (is_none encrypted_message ≡ true) × (contains content e2ee_fallback_marker ≡ false)

followers-ne-direct :
    (v : Text) → text_eq v (bytes "followers") ≡ true → text_eq v (bytes "direct") ≡ false
unfolding text_eq bytes
followers-ne-direct v h =
    subst (λ t. text_eq t (bytes "direct") ≡ false) (sym ((text_eq_iff v (bytes "followers")).0 h))
      refl

-- A post is only shown if it is in the clear, and either `public`, or neither `unlisted` nor
-- `direct` with an approved follower as its reader.
pub can_fetch_post_sound :
    (visibility : Text) (encrypted_message : Option Text) (content : Text) (approved : Bool)
    → can_fetch_post visibility encrypted_message content approved ≡ true
    → InClear encrypted_message content
      × ((visibility ≡ bytes "public")
          ⊎ ((approved ≡ true) × (visibility ≢ bytes "unlisted") × (visibility ≢ bytes "direct")))
unfolding can_fetch_post fetch_under read_policy_from_visibility is_anonymous_public_post
can_fetch_post_sound visibility encrypted_message content approved h = ground (
  arith,
  text_eq_iff visibility (bytes "public"),
  text_eq_iff visibility (bytes "unlisted"),
  text_eq_iff visibility (bytes "direct"),
  followers-ne-direct visibility,
)

-- A post in the clear is shown to every reader if it is `public`, and to an approved follower
-- unless it is `unlisted` or `direct`.
pub can_fetch_post_complete :
    (visibility : Text) (encrypted_message : Option Text) (content : Text) (approved : Bool)
    → InClear encrypted_message content
    → (visibility ≡ bytes "public")
      ⊎ ((approved ≡ true) × (visibility ≢ bytes "unlisted") × (visibility ≢ bytes "direct"))
    → can_fetch_post visibility encrypted_message content approved ≡ true
unfolding can_fetch_post fetch_under read_policy_from_visibility is_anonymous_public_post
can_fetch_post_complete visibility encrypted_message content approved clear h = ground (
  arith,
  text_eq_iff visibility (bytes "public"),
  text_eq_iff visibility (bytes "unlisted"),
  text_eq_iff visibility (bytes "followers"),
  text_eq_iff visibility (bytes "direct"),
)

-- What a reader who is no approved follower may fetch is a post that needs no authorized fetch.
pub can_fetch_post_anonymous :
    (visibility : Text) (encrypted_message : Option Text) (content : Text)
    → can_fetch_post visibility encrypted_message content false ≡ true
    → requires_authorized_post_fetch visibility encrypted_message content ≡ false
unfolding can_fetch_post fetch_under read_policy_from_visibility is_anonymous_public_post
    requires_authorized_post_fetch requires_authorized_fetch is_public
can_fetch_post_anonymous visibility encrypted_message content h = ground arith
