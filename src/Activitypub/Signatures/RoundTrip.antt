-- ===== src/Activitypub/Signatures/RoundTrip.antt =====
-- The header of core/src/activitypub/signatures.rs is parsed as it was written.
use dais.Base.{
  ℕ, Text, text_eq, bytes, List, [], ◌∷◌, ◌++◌, some, false, ◌≡◌, refl, sym, ◌∙◌, ap, arith, ok,
  append_assoc, All, All-append, All-imp, Lacks, ◌==◌, trim, trim_start, trim_end, is_blank, cut_at,
  split, split_whitespace, join,
}
use dais.Activitypub.Signatures.Header.{
  HttpSignature, Found, with_field, read_pair, read_part, read_parts, signature_from, nothing_found,
  parts_of, parse, field, to_header,
}
use dais.Activitypub.Signatures.Quotes.{
  Printable, InField, quoted, trim-quoted, trim_matches-quoted, cut_at-append,
}
use dais.Activitypub.Signatures.Words.{IsName, split-first, split-last, split_whitespace-join}

-- What a header can carry: printable texts without a quote or a comma, and names.
pub record IsPlain (s : HttpSignature) : Type 0 where
  pub key_id : All InField s.key_id
  pub algorithm : All InField s.algorithm
  pub headers : All IsName s.headers
  pub signature : All InField s.signature

InField-Printable : (v : Text) → All InField v → All Printable v
InField-Printable v h = All-imp (λ c p. (p.0, p.1)) v h

InField-Lacks_quote : (v : Text) → All InField v → Lacks 34 v
InField-Lacks_quote v h = All-imp (λ c (p : InField c). ground arith) v h

InField-Lacks_comma : (v : Text) → All InField v → Lacks 44 v
InField-Lacks_comma v h = All-imp (λ c (p : InField c). ground arith) v h

-- The name of a field, as the code writes it.
record IsFieldName (c : ℕ) (n : Text) : Type 0 where
  visible : (c == 32) ≡ false
  first : Printable c
  others : All Printable n
  no_equals : Lacks 61 (c ∷ n)
  no_comma : Lacks 44 (c ∷ n)
  trimmed : trim (c ∷ n) ≡ c ∷ n

field-quoted : (name value : Text) → field name value ≡ quoted (name ++ 61 ∷ 34 ∷ value)
unfolding field bytes
field-quoted name value = sym (append_assoc name (61 ∷ 34 ∷ value) (34 ∷ []))

module _ (c : ℕ) (n value : Text) (f : IsFieldName c n) (h : All InField value) where
  trim-field : trim (field (c ∷ n) value) ≡ field (c ∷ n) value
  trim-field = rw (field-quoted (c ∷ n) value) (
      trim-quoted c (n ++ 61 ∷ 34 ∷ value) f.first f.visible (
        All-append Printable n (61 ∷ 34 ∷ value) f.others
          (omega arith, (omega arith, InField-Printable value h))))

  cut_at-field : cut_at 61 (field (c ∷ n) value) ≡ some (c ∷ n, 34 ∷ quoted value)
  unfolding field bytes
  cut_at-field = cut_at-append 61 (c ∷ n) (34 ∷ quoted value) f.no_equals

  read_part-field :
      (found : Found) → read_part found (field (c ∷ n) value) ≡ with_field found (c ∷ n) value
  unfolding read_part read_pair
  read_part-field found =
      rw
        (
          trim-field,
          cut_at-field,
          f.trimmed,
          trim-quoted 34 value (omega arith) refl (InField-Printable value h),
          trim_matches-quoted value (InField-Lacks_quote value h),
        )
        refl

  field-Lacks : Lacks 44 (field (c ∷ n) value)
  unfolding field bytes
  field-Lacks =
      All-append _ (c ∷ n) (61 ∷ 34 ∷ (value ++ 34 ∷ [])) f.no_comma
        (refl, (refl, All-append _ value (34 ∷ []) (InField-Lacks_comma value h) (refl, tt)))

key_id_name : IsFieldName 107 (bytes "eyId")
unfolding bytes trim trim_start trim_end is_blank
key_id_name = record {
  visible = refl;
  first = omega arith;
  others = omega arith;
  no_equals = (refl, (refl, (refl, (refl, (refl, tt)))));
  no_comma = (refl, (refl, (refl, (refl, (refl, tt)))));
  trimmed = refl;
}

algorithm_name : IsFieldName 97 (bytes "lgorithm")
unfolding bytes trim trim_start trim_end is_blank
algorithm_name = record {
  visible = refl;
  first = omega arith;
  others = omega arith;
  no_equals = (refl, (refl, (refl, (refl, (refl, (refl, (refl, (refl, (refl, tt)))))))));
  no_comma = (refl, (refl, (refl, (refl, (refl, (refl, (refl, (refl, (refl, tt)))))))));
  trimmed = refl;
}

headers_name : IsFieldName 104 (bytes "eaders")
unfolding bytes trim trim_start trim_end is_blank
headers_name = record {
  visible = refl;
  first = omega arith;
  others = omega arith;
  no_equals = (refl, (refl, (refl, (refl, (refl, (refl, (refl, tt)))))));
  no_comma = (refl, (refl, (refl, (refl, (refl, (refl, (refl, tt)))))));
  trimmed = refl;
}

signature_name : IsFieldName 115 (bytes "ignature")
unfolding bytes trim trim_start trim_end is_blank
signature_name = record {
  visible = refl;
  first = omega arith;
  others = omega arith;
  no_equals = (refl, (refl, (refl, (refl, (refl, (refl, (refl, (refl, (refl, tt)))))))));
  no_comma = (refl, (refl, (refl, (refl, (refl, (refl, (refl, (refl, (refl, tt)))))))));
  trimmed = refl;
}

-- The value of the field `headers`.
join-InField : (hs : List Text) → All IsName hs → All InField (join (bytes " ") hs)
unfolding join bytes
join-InField [] h = tt
join-InField (w ∷ []) (h, hs) = All-imp (λ c p. p.0) w h.1
join-InField (w ∷ v ∷ more) (h, hs) =
    All-append _ w (32 ∷ join (bytes " ") (v ∷ more)) (All-imp (λ c p. p.0) w h.1)
      (omega arith, join-InField (v ∷ more) hs)

-- The four fields that `to_header` writes.
abbrev fields : HttpSignature → List Text
fields s =
    field (bytes "keyId") s.key_id
    ∷ field (bytes "algorithm") s.algorithm
    ∷ field (bytes "headers") (join (bytes " ") s.headers)
    ∷ field (bytes "signature") s.signature
    ∷ []

split-to_header : (s : HttpSignature) → IsPlain s → parts_of (split 44 (to_header s)) ≡ fields s
unfolding to_header parts_of bytes
split-to_header s p =
    rw
      (
        split-first 44 (field (bytes "keyId") s.key_id)
            (field (bytes "algorithm") s.algorithm
              ++ (44
                  ∷ (field (bytes "headers") (join (bytes " ") s.headers)
                      ++ (44 ∷ field (bytes "signature") s.signature))))
            (field-Lacks 107 (bytes "eyId") s.key_id key_id_name p.key_id),
        split-first 44 (field (bytes "algorithm") s.algorithm)
            (field (bytes "headers") (join (bytes " ") s.headers)
              ++ (44 ∷ field (bytes "signature") s.signature))
            (field-Lacks 97 (bytes "lgorithm") s.algorithm algorithm_name p.algorithm),
        split-first 44 (field (bytes "headers") (join (bytes " ") s.headers))
            (field (bytes "signature") s.signature)
            (field-Lacks 104 (bytes "eaders") (join (bytes " ") s.headers) headers_name
              (join-InField s.headers p.headers)),
        split-last 44 (field (bytes "signature") s.signature)
            (field-Lacks 115 (bytes "ignature") s.signature signature_name p.signature),
      )
      refl

with_key_id :
    (found : Found) (v : Text)
    → with_field found (bytes "keyId") v ≡ record found { key_id = some v }
unfolding with_field text_eq bytes
with_key_id found v = refl

with_algorithm :
    (found : Found) (v : Text)
    → with_field found (bytes "algorithm") v ≡ record found { algorithm = some v }
unfolding with_field text_eq bytes
with_algorithm found v = refl

with_headers :
    (found : Found) (v : Text)
    → with_field found (bytes "headers") v ≡ record found { headers = some (split_whitespace v) }
unfolding with_field text_eq bytes
with_headers found v = refl

with_signature :
    (found : Found) (v : Text)
    → with_field found (bytes "signature") v ≡ record found { signature = some v }
unfolding with_field text_eq bytes
with_signature found v = refl

-- The fields are read one after the other.
module _ (s : HttpSignature) (p : IsPlain s) (found : Found) where
  read_key_id :
      read_part found (field (bytes "keyId") s.key_id) ≡ record found { key_id = some s.key_id }
  unfolding bytes
  read_key_id =
      read_part-field (107) (bytes "eyId") s.key_id key_id_name p.key_id found
      ∙ with_key_id found s.key_id

  read_algorithm :
      read_part found (field (bytes "algorithm") s.algorithm)
      ≡ record found { algorithm = some s.algorithm }
  unfolding bytes
  read_algorithm =
      read_part-field 97 (bytes "lgorithm") s.algorithm algorithm_name p.algorithm found
      ∙ with_algorithm found s.algorithm

  read_headers :
      read_part found (field (bytes "headers") (join (bytes " ") s.headers))
      ≡ record found { headers = some s.headers }
  unfolding bytes
  read_headers =
      read_part-field 104 (bytes "eaders") (join (bytes " ") s.headers) headers_name
        (join-InField s.headers p.headers) found
      ∙ with_headers found (join (bytes " ") s.headers)
      ∙ ap (λ hs. record found { headers = some hs }) (split_whitespace-join s.headers p.headers)

  read_signature :
      read_part found (field (bytes "signature") s.signature)
      ≡ record found { signature = some s.signature }
  unfolding bytes
  read_signature =
      read_part-field 115 (bytes "ignature") s.signature signature_name p.signature found
      ∙ with_signature found s.signature

-- A signature whose fields are printable, without quotes and commas, and whose headers are names, is
-- parsed from its header as it was.
pub parse-to_header : (s : HttpSignature) → IsPlain s → parse (to_header s) ≡ ok s
unfolding parse read_parts signature_from
parse-to_header s p =
    rw
      (
        split-to_header s p,
        read_key_id s p nothing_found,
        read_algorithm s p _,
        read_headers s p _,
        read_signature s p _,
      )
      refl
