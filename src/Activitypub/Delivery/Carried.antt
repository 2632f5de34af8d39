-- ===== src/Activitypub/Delivery/Carried.antt =====
-- The headers that core/src/activitypub/delivery.rs signs, as a server that keeps names in lower case
-- receives them.
use dais.Base.{
  ℕ, Text, bytes, List, [], ◌∷◌, some, false, ◌≡◌, ◌≢◌, refl, ◌∙◌, arith, inl, inr, Bool-cases, All,
  All-imp, text_eq, text_eq_iff, to_ascii_lowercase, lower_byte, ◌<◌,
}
use dais.Formats.{Formats}
use dais.Activitypub.Signatures.Attempt.{Headers, get_header, Rsa}
use dais.Activitypub.Signatures.Header.{HttpSignature, to_header}
use dais.Activitypub.Signatures.Request.{build_signing_string, signing_lines, signing_line}
use dais.Activitypub.Signatures.Words.{IsName}
use dais.Activitypub.Delivery.Posting.{
  insert_header, without_header, sign_headers, headers_to_sign, request_headers, insert_lowered,
  insert_all, add_names,
}
use dais.Activitypub.Delivery.Maps.{
  received, Agree, Agree-all, Agree-extra, get-received-all, add_names-All,
}

lower_byte_idem : (c : ℕ) → lower_byte (lower_byte c) ≡ lower_byte c
lower_byte_idem c = ground arith

pub to_ascii_lowercase_idem :
    (t : Text) → to_ascii_lowercase (to_ascii_lowercase t) ≡ to_ascii_lowercase t
unfolding to_ascii_lowercase
to_ascii_lowercase_idem [] = refl
to_ascii_lowercase_idem (c ∷ t) = cc (lower_byte_idem c, to_ascii_lowercase_idem t)

-- A header that may be added: its name in lower case is one that the Signature header can list, and it
-- is neither the digest nor the signature.
abbrev pub IsSendable : Text × Text → Type 0
IsSendable e =
    IsName (to_ascii_lowercase e.0)
    × (to_ascii_lowercase e.0 ≢ bytes "digest")
    × (to_ascii_lowercase e.0 ≢ bytes "signature")

text_ne : (a b : Text) → a ≢ b → text_eq a b ≡ false
text_ne a b ne = elim (Bool-cases (text_eq a b)) [
  | inl e ↦ absurd (ne ((text_eq_iff a b).0 e))
  | inr e ↦ e
]

module _ {C F N S P G : Type 0} (x : Formats C F N) (rsa : Rsa S P G)
    (lowers : (t : Text) → All (λ c. c < 128) t → rsa.to_lowercase t ≡ to_ascii_lowercase t) where
  lowers_again :
      (t : Text)
      → IsName (to_ascii_lowercase t)
      → rsa.to_lowercase (to_ascii_lowercase t) ≡ to_ascii_lowercase t
  lowers_again t named =
      lowers (to_ascii_lowercase t) (All-imp (λ c h. omega arith) (to_ascii_lowercase t) named.1)
      ∙ to_ascii_lowercase_idem t

  same_lines :
      (method path : Text) (sent signed : Headers) (names : List Text)
      → All (λ n. Agree sent signed (rsa.to_lowercase n)) names
      → signing_lines x rsa method path (received sent) names
        ≡ signing_lines x rsa method path signed names
  unfolding signing_lines signing_line
  same_lines method path sent signed [] p = refl
  same_lines method path sent signed (n ∷ more) p =
      rw (p.0, same_lines method path sent signed more p.1) refl

  base-Agree :
      (host date digest : Text) (s : HttpSignature)
      → All
          (Agree (request_headers host date digest s []) (sign_headers host date digest []))
          (headers_to_sign [])
  unfolding request_headers sign_headers headers_to_sign add_names insert_all insert_lowered bytes
      get_header insert_header without_header text_eq to_ascii_lowercase
  base-Agree host date digest s = (refl, (refl, (refl, (refl, tt))))

  base-lowers : All (λ n. rsa.to_lowercase n ≡ n) (headers_to_sign [])
  unfolding headers_to_sign add_names bytes to_ascii_lowercase
  base-lowers = (
    lowers _ (omega arith),
    (lowers _ (omega arith), (lowers _ (omega arith), (lowers _ (omega arith), tt))),
  )

  base-IsName : All IsName (headers_to_sign [])
  unfolding headers_to_sign add_names bytes
  base-IsName = (
    ((λ e. cc (e)), omega arith),
    (
      ((λ e. cc (e)), omega arith),
      (((λ e. cc (e)), omega arith), (((λ e. cc (e)), omega arith), tt)),
    ),
  )

  -- The names that are signed can be listed by the Signature header.
  pub headers_to_sign-IsName :
      (extra : Headers) → All IsSendable extra → All IsName (headers_to_sign extra)
  unfolding headers_to_sign add_names
  headers_to_sign-IsName extra h =
      add_names-All IsName extra (headers_to_sign []) base-IsName (All-imp (λ e k. k.0) extra h)

  module _ (host date digest : Text) (s : HttpSignature) (extra : Headers) where
    base-Agree_all :
        (names : List Text)
        → All
            (Agree (request_headers host date digest s []) (sign_headers host date digest []))
            names
        → All (λ n. rsa.to_lowercase n ≡ n) names
        → All
            (λ n.
              Agree
                (request_headers host date digest s extra)
                (sign_headers host date digest extra)
                (rsa.to_lowercase n))
            names
    base-Agree_all [] p q = tt
    base-Agree_all (n ∷ more) p q = (
      rw q.0 (
          unfold request_headers in
          unfold sign_headers in
          unfold insert_all in unfold insert_lowered in Agree-all n extra _ _ p.0),
      base-Agree_all more p.1 q.1,
    )

    extra-Agree :
        (es : Headers)
        → All IsSendable es
        → All
            (λ e.
              Agree
                (request_headers host date digest s extra)
                (sign_headers host date digest extra)
                (to_ascii_lowercase e.0))
            es
        → All
            (λ e.
              Agree
                (request_headers host date digest s extra)
                (sign_headers host date digest extra)
                (rsa.to_lowercase (to_ascii_lowercase e.0)))
            es
    extra-Agree [] h p = tt
    extra-Agree (e ∷ es) h p = (rw (lowers_again e.0 h.0.0) p.0, extra-Agree es h.1 p.1)

    all-Agree :
        All IsSendable extra
        → All
            (λ n.
              Agree
                (request_headers host date digest s extra)
                (sign_headers host date digest extra)
                (rsa.to_lowercase n))
            (headers_to_sign extra)
    unfolding headers_to_sign add_names
    all-Agree h =
        add_names-All
          (λ n.
            Agree (request_headers host date digest s extra) (sign_headers host date digest extra)
              (rsa.to_lowercase n))
          extra (headers_to_sign [])
          (base-Agree_all (headers_to_sign []) (base-Agree host date digest s) base-lowers)
          (extra-Agree extra h
            (unfold request_headers in unfold sign_headers in Agree-extra extra _ _))

    -- The signing string is the same on both sides.
    pub same_string :
        (path : Text)
        → All IsSendable extra
        → build_signing_string x rsa
            (bytes "POST")
            path
            (received (request_headers host date digest s extra))
            (headers_to_sign extra)
          ≡ build_signing_string x rsa
              (bytes "POST")
              path
              (sign_headers host date digest extra)
              (headers_to_sign extra)
    unfolding build_signing_string
    same_string path h =
        let lines =
          same_lines (bytes "POST") path (request_headers host date digest s extra)
            (sign_headers host date digest extra) (headers_to_sign extra) (all-Agree h) in
        rw lines refl

    pub signature_found :
        All IsSendable extra
        → get_header (bytes "signature") (received (request_headers host date digest s extra))
          ≡ some (to_header s)
    unfolding request_headers insert_header without_header get_header to_ascii_lowercase text_eq
        bytes
    signature_found h =
        get-received-all (bytes "signature") extra _ (All-imp (λ e k. text_ne _ _ k.2) extra h)

    pub digest_found :
        All IsSendable extra
        → get_header (bytes "digest") (received (request_headers host date digest s extra))
          ≡ some digest
    unfolding request_headers insert_header without_header get_header to_ascii_lowercase text_eq
        bytes
    digest_found h =
        get-received-all (bytes "digest") extra _ (All-imp (λ e k. text_ne _ _ k.1) extra h)
