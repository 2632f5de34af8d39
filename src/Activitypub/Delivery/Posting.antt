-- ===== src/Activitypub/Delivery/Posting.antt =====
-- The signed request of core/src/activitypub/delivery.rs: `deliver_to_inbox_with_extra_headers`. A map
-- of headers is the list of its entries, each name once. The path of a URL, the time in the format of
-- the Date header and RSA are parameters.
use dais.Base.{
  Text, bytes, List, [], ◌∷◌, ◌++◌, some, Bool, false, ◌||◌, ◌&&◌, leb, ltb, CoreResult, Result, ok,
  err, ok_or, map_err, invalid_activity, signature_error, platform, internal, text_eq,
  to_ascii_lowercase, decimal, if◌then◌else◌, ◌>>=◌,
}
use dais.Formats.{Formats}
use dais.Activitypub.Federation.{Urls}
use dais.Activitypub.Types.{Request, Method, Response, Services}
use dais.Activitypub.Signatures.Attempt.{Headers, Rsa}
use dais.Activitypub.Signatures.Header.{HttpSignature, to_header}
use dais.Activitypub.Signatures.Request.{sign_request}

unfoldable pub without_header : Text → Headers → Headers
without_header name [] = []
without_header name ((key, value) ∷ more) =
    let rest = without_header name more in if text_eq key name then rest else (key, value) ∷ rest

-- `HashMap::insert`
unfoldable pub insert_header : Text → Text → Headers → Headers
insert_header name value headers = (name, value) ∷ without_header name headers

unfoldable pub has_name : Text → List Text → Bool
has_name name [] = false
has_name name (n ∷ more) = text_eq n name || has_name name more

unfoldable pub insert_lowered : Headers → Headers → Headers
insert_lowered [] headers = headers
insert_lowered ((name, value) ∷ more) headers =
    insert_lowered more (insert_header (to_ascii_lowercase name) value headers)

unfoldable pub insert_all : Headers → Headers → Headers
insert_all [] headers = headers
insert_all ((name, value) ∷ more) headers = insert_all more (insert_header name value headers)

unfoldable pub add_names : Headers → List Text → List Text
add_names [] names = names
add_names ((name, value) ∷ more) names = add_names more (
    if has_name (to_ascii_lowercase name) names
    then names
    else names ++ to_ascii_lowercase name ∷ [])

unfoldable pub sign_headers : Text → Text → Text → Headers → Headers
sign_headers host date digest extra_headers = insert_lowered extra_headers (
    insert_header (bytes "digest") digest
      (insert_header (bytes "date") date (insert_header (bytes "host") host [])))

unfoldable pub headers_to_sign : Headers → List Text
headers_to_sign extra_headers =
    add_names extra_headers
      (bytes "(request-target)" ∷ bytes "host" ∷ bytes "date" ∷ bytes "digest" ∷ [])

unfoldable pub request_headers : Text → Text → Text → HttpSignature → Headers → Headers
request_headers host date digest http_signature extra_headers = insert_all extra_headers (
    insert_header (bytes "User-Agent") (bytes "dais/1.1.0") (
      insert_header (bytes "Content-Type") (bytes "application/activity+json") (
        insert_header (bytes "Signature") (to_header http_signature) (
          insert_header (bytes "Digest") digest
            (insert_header (bytes "Date") date (insert_header (bytes "Host") host []))))))

module _ {C F N S P G U : Type 0} (x : Formats C F N) (rsa : Rsa S P G) (urls : Urls U)
    (path : U → Text) (date : Text) where
  unfoldable pub digest_of : Text → Text
  digest_of activity_json = bytes "SHA-256=" ++ x.base64 (x.sha256 activity_json)

  -- The request, signed.
  unfoldable pub signed_delivery : Text → Text → Text → Text → Headers → CoreResult Request
  signed_delivery inbox_url actor_url activity_json private_key_pem extra_headers = do
    url ← map_err (λ e. invalid_activity (bytes "Invalid inbox URL: " ++ e)) (urls.parse inbox_url)
    host ← ok_or (invalid_activity (bytes "No host in inbox URL")) (urls.host_str url)
    http_signature ← map_err signature_error (
        sign_request x rsa private_key_pem (actor_url ++ bytes "#main-key") (bytes "POST")
          (path url) (sign_headers host date (digest_of activity_json) extra_headers)
          (headers_to_sign extra_headers))
    ok record {
      url = inbox_url;
      method = Method.post;
      headers = request_headers host date (digest_of activity_json) http_signature extra_headers;
      body = some activity_json;
      timeout = some 30;
      follow_redirects = false;
    }

  module _ (s : Services F N) where
    error_body : Result Text Text → Text
    error_body (ok t) = t
    error_body (err e) = bytes "Unknown error"

    unfoldable pub delivered : Text → Response → CoreResult (Unit {0})
    unfolding error_body
    delivered inbox_url response =
        if leb 200 response.status && ltb response.status 300
        then ok tt
        else err (
            internal (
              bytes "HTTP "
              ++ (decimal response.status
                  ++ (bytes " from "
                      ++ (inbox_url ++ (bytes ": " ++ error_body (s.from_utf8 response.body)))))))

    unfoldable pub deliver_to_inbox_with_extra_headers :
        Text → Text → Text → Text → Headers → CoreResult (Unit {0})
    deliver_to_inbox_with_extra_headers inbox_url actor_url activity_json private_key_pem
          extra_headers =
        do
          request ← signed_delivery inbox_url actor_url activity_json private_key_pem extra_headers
          response ← map_err platform (s.fetch request)
          delivered inbox_url response

    unfoldable pub deliver_to_inbox : Text → Text → Text → Text → CoreResult (Unit {0})
    deliver_to_inbox inbox_url actor_url activity_json private_key_pem =
        deliver_to_inbox_with_extra_headers inbox_url actor_url activity_json private_key_pem []
