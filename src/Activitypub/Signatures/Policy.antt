-- ===== src/Activitypub/Signatures/Policy.antt =====
-- What an inbound signature must cover, and the window of its date, of
-- core/src/activitypub/signatures.rs.
use dais.Base.{
  ℕ, ◌*◌, Text, bytes, List, [], ◌∷◌, ◌++◌, Bool, false, ◌||◌, not, ltb, ok, err, text_eq,
  to_ascii_lowercase, is_blank, decimal, if◌then◌else◌,
}
use dais.Activitypub.Signatures.Attempt.{
  Attempt, Headers, get_header, Chrono, map_err, ok_or, ◌>>=◌, ◌>>◌,
}
use dais.Activitypub.Signatures.Header.{HttpSignature}

abbrev pub inbound_signature_max_skew_seconds : ℕ
inbound_signature_max_skew_seconds = 12 * 60 * 60

-- `iter().any(|header| header.eq_ignore_ascii_case(required))`
unfoldable pub covers : Text → List Text → Bool
covers required [] = false
covers required (header ∷ more) =
    text_eq (to_ascii_lowercase header) (to_ascii_lowercase required) || covers required more

unfoldable pub require_signed_headers : HttpSignature → List Text → Attempt (Unit {0})
require_signed_headers http_signature [] = ok tt
require_signed_headers http_signature (required ∷ more) =
    let rest = require_signed_headers http_signature more in
    if not (covers required http_signature.headers)
    then err (bytes "Signature does not cover required header: " ++ required)
    else rest

abbrev pub required_headers : List Text
required_headers = bytes "(request-target)" ∷ bytes "host" ∷ bytes "date" ∷ bytes "digest" ∷ []

module _ {T : Type 0} (chrono : Chrono T) where
  unfoldable pub validate_http_date_window : Text → T → ℕ → Attempt (Unit {0})
  validate_http_date_window date_header now max_skew_seconds =
      map_err (λ e. bytes "Invalid Date header: " ++ e) (chrono.parse_rfc2822 date_header)
      >>= λ signed_at.
          if ltb max_skew_seconds (chrono.seconds_between now signed_at)
          then err (
              bytes "Date header outside allowed replay window: "
              ++ (decimal (chrono.seconds_between now signed_at) ++ bytes " seconds"))
          else ok tt

  unfoldable pub require_digest : Text → Attempt (Unit {0})
  require_digest digest_header =
      if is_blank digest_header then err (bytes "Digest header is empty") else ok tt

  unfoldable pub validate_inbound_post_signature_policy :
      HttpSignature → Headers → T → Attempt (Unit {0})
  validate_inbound_post_signature_policy http_signature headers now =
      require_signed_headers http_signature required_headers
      >> (ok_or (bytes "Missing required Digest header") (get_header (bytes "digest") headers)
          >>= require_digest)
      >> (ok_or (bytes "Missing required Date header") (get_header (bytes "date") headers)
          >>= λ date_header.
              validate_http_date_window date_header now inbound_signature_max_skew_seconds)
