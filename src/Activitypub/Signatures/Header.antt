-- ===== src/Activitypub/Signatures/Header.antt =====
-- The Signature header, parsed and written: `HttpSignature` of core/src/activitypub/signatures.rs.
use dais.Base.{
  Text, bytes, List, [], ◌∷◌, ◌++◌, Option, none, some, ok, text_eq, if◌then◌else◌, split, cut_at,
  trim, trim_matches, split_whitespace, join,
}
use dais.Activitypub.Signatures.Attempt.{Attempt, ok_or, ◌>>=◌}

pub record HttpSignature : Type 0 where
  pub key_id : Text
  pub algorithm : Text
  pub headers : List Text
  pub signature : Text

-- The variables of the loop.
pub record Found : Type 0 where
  pub key_id : Option Text
  pub algorithm : Option Text
  pub headers : Option (List Text)
  pub signature : Option Text

unfoldable pub with_field : Found → Text → Text → Found
with_field found key value =
    if text_eq key (bytes "keyId")
    then record found { key_id = some value }
    else if text_eq key (bytes "algorithm")
    then record found { algorithm = some value }
    else if text_eq key (bytes "headers")
    then record found { headers = some (split_whitespace value) }
    else if text_eq key (bytes "signature")
    then record found { signature = some value }
    else found

-- `split_once('=')`
unfoldable pub read_pair : Found → Option (Text × Text) → Found
read_pair found none = found
read_pair found (some (key, value)) = with_field found (trim key) (trim_matches 34 (trim value))

unfoldable pub read_part : Found → Text → Found
read_part found part = read_pair found (cut_at 61 (trim part))

unfoldable pub read_parts : Found → List Text → Found
read_parts found [] = found
read_parts found (part ∷ parts) = read_parts (read_part found part) parts

unfoldable pub signature_from : Found → Attempt HttpSignature
signature_from found = do
  key_id ← ok_or (bytes "Missing keyId") found.key_id
  algorithm ← ok_or (bytes "Missing algorithm") found.algorithm
  headers ← ok_or (bytes "Missing headers") found.headers
  signature ← ok_or (bytes "Missing signature") found.signature
  ok record { key_id = key_id; algorithm = algorithm; headers = headers; signature = signature }

abbrev pub nothing_found : Found
nothing_found = record { key_id = none; algorithm = none; headers = none; signature = none }

unfoldable pub parts_of : Text × List Text → List Text
parts_of (part, parts) = part ∷ parts

unfoldable pub parse : Text → Attempt HttpSignature
unfolding parts_of
parse header_value = signature_from (read_parts nothing_found (parts_of (split 44 header_value)))

-- A field of the header: its name, and its value in quotes.
unfoldable pub field : Text → Text → Text
field name value = name ++ (bytes "=\"" ++ (value ++ bytes "\""))

unfoldable pub to_header : HttpSignature → Text
to_header s =
    field (bytes "keyId") s.key_id
    ++ (44
        ∷ (field (bytes "algorithm") s.algorithm
            ++ (44
                ∷ (field (bytes "headers") (join (bytes " ") s.headers)
                    ++ (44 ∷ field (bytes "signature") s.signature)))))
