-- ===== src/Activitypub/Delivery/Acceptance.antt =====
-- What core/src/activitypub/delivery.rs sends passes the checks of core/src/activitypub/signatures.rs.
use mathlib.Core.Path.{subst}
use dais.Base.{
  Text, bytes, List, ◌++◌, some, true, ◌≡◌, refl, sym, ap, ◌<◌, arith, ok, Result-cases, inl, inr,
  All, All-append, to_ascii_lowercase, text_eq_iff, Option-cases, ok-injective,
}
use dais.Formats.{Formats}
use dais.Activitypub.Federation.{Urls}
use dais.Activitypub.Types.{Request}
use dais.Activitypub.Signatures.Attempt.{Headers, get_header, Rsa}
use dais.Activitypub.Signatures.Header.{HttpSignature, parse, to_header}
use dais.Activitypub.Signatures.Request.{
  sign_request, verify_request, verify_digest, build_signing_string,
}
use dais.Activitypub.Signatures.Quotes.{InField}
use dais.Activitypub.Signatures.Words.{IsName}
use dais.Activitypub.Signatures.RoundTrip.{IsPlain, parse-to_header}
use dais.Activitypub.Signatures.Laws.{
  IsKeyPair, sign_message_eq, attempt-injective, verify-sign_request,
}
use dais.Activitypub.Delivery.Maps.{received}
use dais.Activitypub.Delivery.Carried.{
  IsSendable, headers_to_sign-IsName, same_string, signature_found, digest_found,
}
use dais.Activitypub.Signatures.Policy.{covers, require_signed_headers, required_headers}
use dais.Activitypub.Delivery.Covering.{covers-headers_to_sign, require-headers_to_sign}
use dais.Activitypub.Delivery.Posting.{
  sign_headers, headers_to_sign, request_headers, digest_of, signed_delivery,
}

rsa_sha256-InField : All InField (bytes "rsa-sha256")
unfolding bytes
rsa_sha256-InField = omega arith

module _ {C F N S P G : Type 0} (x : Formats C F N) (rsa : Rsa S P G)
    (lowers : (t : Text) → All (λ c. c < 128) t → rsa.to_lowercase t ≡ to_ascii_lowercase t) where
  key_id-InField :
      (actor_url : Text) → All InField actor_url → All InField (actor_url ++ bytes "#main-key")
  unfolding bytes
  key_id-InField actor_url h = All-append InField actor_url (bytes "#main-key") h (omega arith)

  module _ (private_key_pem public_key_pem : Text)
      (keys : IsKeyPair x rsa private_key_pem public_key_pem)
      (base64-InField : (b : Text) → All InField (x.base64 b)) where
    sign_request-IsPlain :
        (key_id method path : Text) (headers : Headers) (names : List Text) (s : HttpSignature)
        → sign_request x rsa private_key_pem key_id method path headers names ≡ ok s
        → All InField key_id
        → All IsName names
        → IsPlain s
    unfolding sign_request
    sign_request-IsPlain key_id method path headers names s h plain listed =
        elim (Result-cases (build_signing_string x rsa method path headers names)) [
          | inr (e, missing) ↦ let bad = (rw missing at h) in cc (bad)
          | inl (text, built) ↦
              let made =
                (rw (built, sign_message_eq x rsa private_key_pem public_key_pem keys text) at h) in
              subst IsPlain (attempt-injective made) (record {
                key_id = plain;
                algorithm = rsa_sha256-InField;
                headers = listed;
                signature = base64-InField _;
              })
        ]

    sign_request-headers :
        (key_id method path : Text) (headers : Headers) (names : List Text) (s : HttpSignature)
        → sign_request x rsa private_key_pem key_id method path headers names ≡ ok s
        → s.headers ≡ names
    unfolding sign_request
    sign_request-headers key_id method path headers names s h =
        elim (Result-cases (build_signing_string x rsa method path headers names)) [
          | inr (e, missing) ↦ let bad = (rw missing at h) in cc (bad)
          | inl (text, built) ↦
              let made =
                (rw (built, sign_message_eq x rsa private_key_pem public_key_pem keys text) at h) in
              subst (λ (t : HttpSignature). t.headers ≡ names) (attempt-injective made) refl
        ]

    verify_same :
        (s : HttpSignature) (method path : Text) (sent got : Headers) (names : List Text)
        → s.headers ≡ names
        → build_signing_string x rsa method path got names
          ≡ build_signing_string x rsa method path sent names
        → verify_request x rsa public_key_pem s method path sent ≡ ok true
        → verify_request x rsa public_key_pem s method path got ≡ ok true
    unfolding verify_request
    verify_same s method path sent got names e same h =
        let same' =
          subst
            (λ n.
              build_signing_string x rsa method path got n
              ≡ build_signing_string x rsa method path sent n)
            (sym e) same in
        rw same' h

    digest_good :
        (body : Text)
        → verify_digest x rsa body (bytes "SHA-256=" ++ x.base64 (x.sha256 body)) ≡ ok true
    unfolding verify_digest
    digest_good body = ap ok ((text_eq_iff _ _).1 refl)

    abbrev digest_text : Text → Text
    digest_text activity_json = bytes "SHA-256=" ++ x.base64 (x.sha256 activity_json)

    -- What a server can ask of the headers and the body of a request that it has received.
    abbrev AreAccepted : Text → Text → Headers → Headers → Type 0
    AreAccepted path activity_json extra headers =
        ((signature : Text) × (get_header (bytes "signature") (received headers) ≡ some signature)
          × (s : HttpSignature) × (parse signature ≡ ok s)
          × (require_signed_headers s required_headers ≡ ok tt)
          × All (λ e. covers e.0 s.headers ≡ true) extra
          × (verify_request x rsa public_key_pem s (bytes "POST") path (received headers)
              ≡ ok true))
        × ((digest : Text) × (get_header (bytes "digest") (received headers) ≡ some digest)
            × (verify_digest x rsa activity_json digest ≡ ok true))

    abbrev pub IsAccepted : Text → Text → Headers → Request → Type 0
    IsAccepted path activity_json extra request =
        AreAccepted path activity_json extra request.headers

    signed-AreAccepted :
        (host date path actor_url activity_json : Text) (extra : Headers) (s : HttpSignature)
        → All InField actor_url
        → All IsSendable extra
        → sign_request x rsa private_key_pem
            (actor_url ++ bytes "#main-key")
            (bytes "POST")
            path
            (sign_headers host date (digest_text activity_json) extra)
            (headers_to_sign extra)
          ≡ ok s
        → AreAccepted path activity_json extra
            (request_headers host date (digest_text activity_json) s extra)
    signed-AreAccepted host date path actor_url activity_json extra s plain sendable signed =
        let digest : Text = digest_text activity_json in
        let key_id : Text = actor_url ++ bytes "#main-key" in
        let listed = sign_request-headers key_id (bytes "POST") path _ _ s signed in
        (
          (
            to_header s,
            signature_found x rsa lowers host date digest s extra sendable,
            s,
            parse-to_header s (
                sign_request-IsPlain key_id (bytes "POST") path _ _ s signed
                  (key_id-InField actor_url plain)
                  (headers_to_sign-IsName x rsa lowers extra sendable)),
            require-headers_to_sign s extra listed,
            subst (λ n. All (λ e. covers e.0 n ≡ true) extra) (sym listed)
                (covers-headers_to_sign extra),
            verify_same s (bytes "POST") path (sign_headers host date digest extra) _
                (headers_to_sign extra) listed
                (same_string x rsa lowers host date digest s extra path sendable)
                (verify-sign_request x rsa private_key_pem public_key_pem keys key_id (bytes "POST")
                  path _ _ s signed),
          ),
          (
            digest,
            digest_found x rsa lowers host date digest s extra sendable,
            digest_good activity_json,
          ),
        )

    -- A request that is sent with any further headers, when its server keeps the names of the headers in
    -- lower case: its Signature header is parsed, covers the headers that an inbound signature must cover
    -- and the further ones, and is accepted under the sender's public key, and its Digest header is the
    -- digest of the body. The actor's URL is plain, and so are the texts of `base64`. The names of the
    -- further headers, in lower case, can be listed by a Signature header, and none is `digest` or
    -- `signature`. Of two headers whose names differ only in case, the server takes
    -- the one that was added last.
    pub signed_delivery-IsAccepted :
        {U : Type 0} (urls : Urls U) (path : U → Text)
        (date inbox_url actor_url activity_json : Text) (extra_headers : Headers) (url : U)
        (request : Request)
        → All InField actor_url
        → All IsSendable extra_headers
        → urls.parse inbox_url ≡ ok url
        → signed_delivery x rsa urls path date inbox_url actor_url activity_json private_key_pem
            extra_headers
          ≡ ok request
        → IsAccepted (path url) activity_json extra_headers request
    unfolding signed_delivery digest_of
    signed_delivery-IsAccepted urls path date inbox_url actor_url activity_json extra url request
          plain sendable parsed sent =
        elim (Option-cases (urls.host_str url)) [
          | inl e ↦ let bad = (rw (parsed, e) at sent) in cc (bad)
          | inr (host, e) ↦
              elim (Result-cases (
                sign_request x rsa private_key_pem (actor_url ++ bytes "#main-key") (bytes "POST")
                  (path url) (sign_headers host date (digest_text activity_json) extra)
                  (headers_to_sign extra))) [
                    | inr (error, unsigned) ↦
                        let bad = (rw (parsed, e, unsigned) at sent) in cc (bad)
                    | inl (s, signed) ↦
                        let made = (rw (parsed, e, signed) at sent) in
                        subst (IsAccepted (path url) activity_json extra) (ok-injective made) (
                          signed-AreAccepted host date (path url) actor_url activity_json extra s
                            plain sendable signed)
                  ]
        ]
