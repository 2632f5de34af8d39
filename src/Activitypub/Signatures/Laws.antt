-- ===== src/Activitypub/Signatures/Laws.antt =====
-- What a signature of core/src/activitypub/signatures.rs promises.
use mathlib.Core.Path.{subst}
use dais.Base.{
  ℕ, Text, List, [], ◌∷◌, some, true, ◌≡◌, refl, ok, Result-cases, Bool-cases, inl, inr, All,
  get_elem?, to_ascii_lowercase, text_eq, text_eq_iff, suc,
}
use dais.Formats.{Formats}
use dais.Activitypub.Signatures.Attempt.{Attempt, Headers, Rsa, ◌>>=◌}
use dais.Activitypub.Signatures.Header.{HttpSignature, parse, to_header}
use dais.Activitypub.Signatures.Request.{
  sign_message, verify_signature_raw, build_signing_string, sign_request, verify_request,
}
use dais.Activitypub.Signatures.Policy.{covers, require_signed_headers}
use dais.Activitypub.Signatures.RoundTrip.{IsPlain, parse-to_header}

-- Two PEM texts of one pair of keys, and the documented behaviour of `rsa` and `base64`.
pub record IsKeyPair {C F N S P G : Type 0} (x : Formats C F N) (rsa : Rsa S P G)
    (private_key_pem public_key_pem : Text) : Type 0 where
  pub secret : S
  pub public : P
  pub private_key_eq : rsa.private_key private_key_pem ≡ ok secret
  pub public_key_eq : rsa.public_key public_key_pem ≡ ok public
  pub verify-sign : (message : Text) → rsa.verify public message (rsa.sign secret message) ≡ true
  pub signature_of-signature_bytes : (g : G) → rsa.signature_of (rsa.signature_bytes g) ≡ ok g
  pub decode64-base64 : (b : Text) → rsa.decode64 (x.base64 b) ≡ ok b

attempt-injective_at : (a b : HttpSignature) → ◌≡◌ {A = Attempt HttpSignature} (ok a) (ok b) → a ≡ b
attempt-injective_at a b h = cc

pub attempt-injective :
    {a b : HttpSignature} → ◌≡◌ {A = Attempt HttpSignature} (ok a) (ok b) → a ≡ b
attempt-injective {a} {b} h = attempt-injective_at a b h

module _ {C F N S P G : Type 0} (x : Formats C F N) (rsa : Rsa S P G)
    (private_key_pem public_key_pem : Text)
    (keys : IsKeyPair x rsa private_key_pem public_key_pem) where
  abbrev pub signed : Text → Text
  signed message = x.base64 (rsa.signature_bytes (rsa.sign keys.secret message))

  pub sign_message_eq :
      (message : Text) → sign_message x rsa private_key_pem message ≡ ok (signed message)
  unfolding sign_message
  sign_message_eq message = rw keys.private_key_eq refl

  verify-signed :
      (message : Text)
      → verify_signature_raw x rsa public_key_pem message (signed message) ≡ ok true
  unfolding verify_signature_raw
  verify-signed message =
      rw
        (
          keys.public_key_eq,
          keys.decode64-base64 (rsa.signature_bytes (rsa.sign keys.secret message)),
          keys.signature_of-signature_bytes (rsa.sign keys.secret message),
          keys.verify-sign message,
        )
        refl

  pub verify-sign_request :
      (key_id method path : Text) (headers : Headers) (names : List Text) (s : HttpSignature)
      → sign_request x rsa private_key_pem key_id method path headers names ≡ ok s
      → verify_request x rsa public_key_pem s method path headers ≡ ok true
  unfolding sign_request verify_request
  verify-sign_request key_id method path headers names s h =
      elim (Result-cases (build_signing_string x rsa method path headers names)) [
        | inr (e, missing) ↦ let bad = (rw missing at h) in cc (bad)
        | inl (text, built) ↦
            let made = (rw (built, sign_message_eq text) at h) in
            subst (λ s. verify_request x rsa public_key_pem s method path headers ≡ ok true)
              (attempt-injective made) (rw (built, verify-signed text) refl)
      ]

  -- A request that is signed is accepted under the public key, when its signature has gone through the
  -- text of the header. The fields of the signature are plain.
  pub verify_request-sign_request :
      (key_id method path : Text) (headers : Headers) (names : List Text) (s : HttpSignature)
      → sign_request x rsa private_key_pem key_id method path headers names ≡ ok s
      → IsPlain s
      → (parse (to_header s) >>= λ received.
          verify_request x rsa public_key_pem received method path headers)
        ≡ ok true
  verify_request-sign_request key_id method path headers names s h plain =
      rw (parse-to_header s plain) (verify-sign_request key_id method path headers names s h)

-- A name that the signature covers, in any case of its letters.
abbrev pub IsCovered : List Text → Text → Type 0
IsCovered names required =
    (i : ℕ) × (name : Text) × (get_elem? names i ≡ some name)
    × (to_ascii_lowercase name ≡ to_ascii_lowercase required)

covers-IsCovered :
    (required : Text) (names : List Text) → covers required names ≡ true → IsCovered names required
unfolding covers
covers-IsCovered required [] h = cc
covers-IsCovered required (name ∷ more) h =
    elim (Bool-cases (text_eq (to_ascii_lowercase name) (to_ascii_lowercase required))) [
      | inl e ↦ (0, name, refl, (text_eq_iff _ _).0 e)
      | inr e ↦
          let later : covers required more ≡ true = (rw e at h) in
          let (i, found, at, same) = covers-IsCovered required more later in
          (suc i, found, at, same)
    ]

pub require_signed_headers_sound :
    (s : HttpSignature) (required : List Text)
    → require_signed_headers s required ≡ ok tt
    → All (IsCovered s.headers) required
unfolding require_signed_headers
require_signed_headers_sound s [] h = tt
require_signed_headers_sound s (r ∷ more) h = elim (Bool-cases (covers r s.headers)) [
  | inl e ↦
      let later : require_signed_headers s more ≡ ok tt = (rw e at h) in
      (covers-IsCovered r s.headers e, require_signed_headers_sound s more later)
  | inr e ↦ let bad = (rw e at h) in cc (bad)
]
