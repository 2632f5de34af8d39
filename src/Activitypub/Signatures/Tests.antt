-- ===== src/Activitypub/Signatures/Tests.antt =====
-- A request that is signed with a toy scheme, in which a signature is the message.
use dais.Base.{
  ℕ, Text, Bytes, bytes, List, [], ◌∷◌, Option, none, some, true, false, ok, ◌≡◌, ◌≢◌, refl, All,
  text_eq, text_eq_iff, arith, ◌≤◌, is_blank,
}
use dais.Sample.{sample}
use dais.Activitypub.Signatures.Attempt.{Headers, Rsa, Chrono, get_header, ◌>>=◌}
use dais.Activitypub.Signatures.Header.{HttpSignature, parse, to_header}
use dais.Activitypub.Signatures.Request.{sign_request, verify_request}
use dais.Activitypub.Signatures.Policy.{validate_inbound_post_signature_policy}
use dais.Activitypub.Signatures.RoundTrip.{IsPlain}
use dais.Activitypub.Signatures.Laws.{IsKeyPair, IsCovered, verify_request-sign_request}
use dais.Activitypub.Signatures.Window.{validate_inbound_post_signature_policy_sound}

abbrev toy : Rsa Text Text Bytes
toy = record {
  private_key = λ pem. ok pem;
  public_key = λ pem. ok pem;
  sign = λ key message. bytes "s";
  verify = λ key message g. text_eq g (bytes "s");
  signature_bytes = λ g. g;
  signature_of = λ b. ok b;
  decode64 = λ t. ok t;
  to_lowercase = λ t. t;
}

abbrev clock : Chrono ℕ
clock = record { parse_rfc2822 = λ t. ok 5; seconds_between = λ a b. 60 }

toy-IsKeyPair : IsKeyPair sample toy (bytes "k") (bytes "k")
unfolding sample text_eq bytes
toy-IsKeyPair = record {
  secret = bytes "k";
  public = bytes "k";
  private_key_eq = refl;
  public_key_eq = refl;
  verify-sign = λ message. refl;
  signature_of-signature_bytes = λ g. refl;
  decode64-base64 = λ b. refl;
}

abbrev request_headers : Headers
request_headers =
    (bytes "host", bytes "a.example")
    ∷ (bytes "date", bytes "Thu")
    ∷ (bytes "digest", bytes "SHA-256=x")
    ∷ []

abbrev names : List Text
names = bytes "(request-target)" ∷ bytes "host" ∷ bytes "date" ∷ bytes "digest" ∷ []

abbrev signature_of_names : HttpSignature
signature_of_names = record {
  key_id = bytes "https://a.example/u#main-key";
  algorithm = bytes "rsa-sha256";
  headers = names;
  signature = bytes "s";
}

plain : IsPlain signature_of_names
unfolding bytes
plain = record {
  key_id = omega arith;
  algorithm = omega arith;
  headers = (
    ((λ e. cc (e)), omega arith),
    (
      ((λ e. cc (e)), omega arith),
      (((λ e. cc (e)), omega arith), (((λ e. cc (e)), omega arith), tt)),
    ),
  );
  signature = omega arith;
}

verify_request-sign_request_example :
    (parse (to_header signature_of_names) >>= λ received.
    verify_request sample toy (bytes "k") received (bytes "post") (bytes "/inbox") request_headers)
    ≡ ok true
unfolding sign_request dais.Activitypub.Signatures.Request.build_signing_string
    dais.Activitypub.Signatures.Request.signing_lines
    dais.Activitypub.Signatures.Request.signing_line text_eq bytes get_header
    dais.Activitypub.Signatures.Request.sign_message sample
verify_request-sign_request_example =
    verify_request-sign_request sample toy (bytes "k") (bytes "k") toy-IsKeyPair
      (bytes "https://a.example/u#main-key") (bytes "post") (bytes "/inbox") request_headers names
      signature_of_names refl plain

validate_inbound_post_signature_policy_sound_example :
    All (IsCovered names) names
    × ((digest : Text) × (get_header (bytes "digest") request_headers ≡ some digest)
        × (is_blank digest ≡ false))
    × ((date : Text) × (signed_at : ℕ) × (get_header (bytes "date") request_headers ≡ some date)
        × (clock.parse_rfc2822 date ≡ ok signed_at)
        × (clock.seconds_between 7 signed_at ≤ 43200))
unfolding validate_inbound_post_signature_policy
    dais.Activitypub.Signatures.Policy.require_signed_headers
    dais.Activitypub.Signatures.Policy.covers text_eq dais.Base.to_ascii_lowercase bytes get_header
    dais.Activitypub.Signatures.Policy.require_digest is_blank
    dais.Activitypub.Signatures.Policy.validate_http_date_window
validate_inbound_post_signature_policy_sound_example =
    validate_inbound_post_signature_policy_sound clock signature_of_names request_headers 7 refl
