-- ===== src/Activitypub/Delivery/Tests.antt =====
-- A follower whose inbox a post is queued for, and a request that is sent.
use dais.Base.{◌++◌, refl, arith, false, ℕ, Text, bytes, [], ◌∷◌, none, some, ok, err}
use dais.Json.{Value, Members}
use dais.Sample.{sample}
use dais.Store.{Store}
use dais.Activitypub.Federation.{Urls}
use dais.Activitypub.Types.{Services, Request, Method}
use dais.Activitypub.Signatures.Header.{HttpSignature}
use dais.Base.{All, to_ascii_lowercase}
use dais.Activitypub.Signatures.Attempt.{Headers}
use dais.Activitypub.Delivery.Carried.{IsSendable}
use dais.Activitypub.Delivery.Posting.{headers_to_sign, request_headers}
use dais.Activitypub.Delivery.Acceptance.{IsAccepted, signed_delivery-IsAccepted}
use dais.Activitypub.Delivery.Toy.{letters, lettered-InField, lettered, toy, toy-IsKeyPair}
use dais.Activitypub.Delivery.{create_follower_deliveries}
use dais.Activitypub.Delivery.Hosts.{OnlyAllowed, create_follower_deliveries-OnlyAllowed}

abbrev urls : Urls Text
urls = record { parse = λ t. ok t; scheme = λ u. bytes "https"; host_str = λ u. some u }

abbrev services : Services ℕ ℕ
services = record {
  fetch = λ request. err (bytes "offline");
  from_utf8 = λ t. ok t;
  parse_json = λ t. err (bytes "not read");
  value_to_json = λ v. ok (bytes "{}");
  activity_to_json = λ a. ok (bytes "{}");
  parse_profile = λ t. err (bytes "not read");
  now_rfc3339 = λ h. bytes "2026-01-01T00:00:00Z";
  generate_uuid = λ h. bytes "u";
  zero = 0;
}

abbrev one_follower : Store ℕ
one_follower = record {
  execute = λ h sql ps. ok (
      Members.member (bytes "follower_inbox") (Value.string (bytes "https://a.example/inbox"))
        Members.end
      ∷ []);
}

create_follower_deliveries-OnlyAllowed_example :
    OnlyAllowed sample one_follower services urls
      (create_follower_deliveries sample one_follower services urls (bytes "p") (bytes "me") []).1
create_follower_deliveries-OnlyAllowed_example =
    create_follower_deliveries-OnlyAllowed sample one_follower services urls (bytes "p")
      (bytes "me")

-- A further header, as the delivery of posts to followers has it.
abbrev sync : Headers
sync = (bytes "Collection-Synchronization", bytes "c") ∷ []

sync-IsSendable : All IsSendable sync
unfolding bytes to_ascii_lowercase
sync-IsSendable = ((((λ e. cc (e)), omega arith), (λ e. cc (e)), (λ e. cc (e))), tt)

abbrev sent_signature : HttpSignature
sent_signature = record {
  key_id = bytes "https://b.example/u" ++ bytes "#main-key";
  algorithm = bytes "rsa-sha256";
  headers = headers_to_sign sync;
  signature = letters (bytes "s");
}

abbrev sent_request : Request
sent_request = record {
  url = bytes "a.example";
  method = Method.post;
  headers =
      request_headers (bytes "a.example") (bytes "Thu") (bytes "SHA-256=" ++ letters (bytes "{}"))
        sent_signature sync;
  body = some (bytes "{}");
  timeout = some 30;
  follow_redirects = false;
}

signed_delivery-IsAccepted_example :
    IsAccepted lettered toy
      (λ t h. refl)
      (bytes "k")
      (bytes "k")
      toy-IsKeyPair
      lettered-InField
      (bytes "/inbox")
      (bytes "{}")
      sync
      sent_request
unfolding bytes dais.Activitypub.Delivery.Posting.signed_delivery
    dais.Activitypub.Signatures.Request.sign_request
    dais.Activitypub.Signatures.Request.build_signing_string
    dais.Activitypub.Signatures.Request.signing_lines headers_to_sign
    dais.Activitypub.Delivery.Posting.add_names dais.Activitypub.Signatures.Request.signing_line
    dais.Base.text_eq to_ascii_lowercase dais.Activitypub.Signatures.Attempt.get_header
    dais.Activitypub.Delivery.Posting.sign_headers dais.Activitypub.Delivery.Posting.insert_lowered
    dais.Activitypub.Delivery.Posting.insert_header dais.Activitypub.Delivery.Posting.without_header
    dais.Activitypub.Signatures.Request.sign_message dais.Activitypub.Delivery.Posting.digest_of
    lettered sample dais.Activitypub.Delivery.Posting.has_name
signed_delivery-IsAccepted_example =
    signed_delivery-IsAccepted lettered toy (λ t h. refl) (bytes "k") (bytes "k") toy-IsKeyPair
      lettered-InField urls (λ u. bytes "/inbox") (bytes "Thu") (bytes "a.example")
      (bytes "https://b.example/u") (bytes "{}") sync (bytes "a.example") sent_request (omega arith)
      sync-IsSendable refl refl
