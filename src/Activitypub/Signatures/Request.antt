-- ===== src/Activitypub/Signatures/Request.antt =====
-- The signing string, signing and verifying, of core/src/activitypub/signatures.rs.
use dais.Base.{Text, bytes, List, [], ◌∷◌, ◌++◌, Bool, ok, text_eq, if◌then◌else◌, join}
use dais.Formats.{Formats}
use dais.Activitypub.Signatures.Attempt.{Attempt, Headers, get_header, Rsa, map_err, ok_or, ◌>>=◌}
use dais.Activitypub.Signatures.Header.{HttpSignature}

module _ {C F N S P G : Type 0} (x : Formats C F N) (rsa : Rsa S P G) where
  unfoldable pub sign_message : Text → Text → Attempt Text
  sign_message private_key_pem message = do
    private_key ←
        map_err (λ e. bytes "Failed to parse private key: " ++ e) (rsa.private_key private_key_pem)
    ok (x.base64 (rsa.signature_bytes (rsa.sign private_key message)))

  unfoldable pub verify_signature_raw : Text → Text → Text → Attempt Bool
  verify_signature_raw public_key_pem message signature_b64 = do
    public_key ←
        map_err (λ e. bytes "Failed to parse public key: " ++ e) (rsa.public_key public_key_pem)
    signature_bytes ←
        map_err (λ e. bytes "Failed to decode signature: " ++ e) (rsa.decode64 signature_b64)
    signature ←
        map_err (λ e. bytes "Invalid signature format: " ++ e) (rsa.signature_of signature_bytes)
    ok (rsa.verify public_key message signature)

  -- One line of the signing string.
  unfoldable pub signing_line : Text → Text → Headers → Text → Attempt Text
  signing_line method path headers header_name =
      let header_lower = rsa.to_lowercase header_name in
      if text_eq header_lower (bytes "(request-target)")
      then ok (bytes "(request-target): " ++ (rsa.to_lowercase method ++ (bytes " " ++ path)))
      else (ok_or (bytes "Missing required header: " ++ header_name)
            (get_header header_lower headers)
          >>= λ value. ok (header_lower ++ (bytes ": " ++ value)))

  unfoldable pub signing_lines : Text → Text → Headers → List Text → Attempt (List Text)
  signing_lines method path headers [] = ok []
  signing_lines method path headers (header_name ∷ more) = do
    line ← signing_line method path headers header_name
    lines ← signing_lines method path headers more
    ok (line ∷ lines)

  unfoldable pub build_signing_string : Text → Text → Headers → List Text → Attempt Text
  build_signing_string method path headers headers_to_sign = do
    parts ← signing_lines method path headers headers_to_sign
    ok (join (bytes "\n") parts)

  unfoldable pub sign_request :
      Text → Text → Text → Text → Headers → List Text → Attempt HttpSignature
  sign_request private_key_pem key_id method path headers headers_to_sign = do
    signing_string ← build_signing_string method path headers headers_to_sign
    signature ← sign_message private_key_pem signing_string
    ok record {
      key_id = key_id;
      algorithm = bytes "rsa-sha256";
      headers = headers_to_sign;
      signature = signature;
    }

  unfoldable pub verify_request : Text → HttpSignature → Text → Text → Headers → Attempt Bool
  verify_request public_key_pem http_signature method path headers = do
    signing_string ← build_signing_string method path headers http_signature.headers
    verify_signature_raw public_key_pem signing_string http_signature.signature

  -- `Ok(digest_header == expected_digest)`
  unfoldable pub verify_digest : Text → Text → Attempt Bool
  verify_digest body digest_header =
      ok (text_eq digest_header (bytes "SHA-256=" ++ x.base64 (x.sha256 body)))
