-- ===== src/Activitypub/Delivery/Covering.antt =====
-- What the signature of core/src/activitypub/delivery.rs covers.
use dais.Base.{
  Text, bytes, List, [], ◌∷◌, ◌++◌, true, ◌≡◌, refl, ap, ◌∙◌, arith, inl, inr, Bool-cases, All,
  All-imp, ok, text_eq, text_eq_iff, to_ascii_lowercase, if◌then◌else◌,
}
use dais.Activitypub.Signatures.Attempt.{Headers}
use dais.Activitypub.Signatures.Header.{HttpSignature}
use dais.Activitypub.Signatures.Policy.{covers, require_signed_headers, required_headers}
use dais.Activitypub.Delivery.Posting.{add_names, has_name, headers_to_sign}
use dais.Activitypub.Delivery.Carried.{to_ascii_lowercase_idem}

covers-append :
    (r : Text) (names more : List Text) → covers r names ≡ true → covers r (names ++ more) ≡ true
unfolding covers
covers-append r [] more h = cc
covers-append r (n ∷ names) more h = ground (arith, covers-append r names more)

covers-append_last :
    (r : Text) (names : List Text) → covers r (names ++ to_ascii_lowercase r ∷ []) ≡ true
unfolding covers
covers-append_last r [] =
    rw
      (
        to_ascii_lowercase_idem r,
        (text_eq_iff (to_ascii_lowercase r) (to_ascii_lowercase r)).1 refl,
      )
      refl
covers-append_last r (n ∷ names) = ground (arith, covers-append_last r names)

covers-has_name :
    (r : Text) (names : List Text)
    → has_name (to_ascii_lowercase r) names ≡ true
    → covers r names ≡ true
unfolding covers has_name
covers-has_name r [] h = cc
covers-has_name r (n ∷ names) h = elim (Bool-cases (text_eq n (to_ascii_lowercase r))) [
  | inl e ↦
      let same =
        ap to_ascii_lowercase ((text_eq_iff n (to_ascii_lowercase r)).0 e)
        ∙ to_ascii_lowercase_idem r in
      rw ((text_eq_iff (to_ascii_lowercase n) (to_ascii_lowercase r)).1 same) refl
  | inr e ↦ ground (arith, covers-has_name r names, e)
]

covers-next :
    (r : Text) (names : List Text)
    → covers r (
        if has_name (to_ascii_lowercase r) names then names else names ++ to_ascii_lowercase r ∷ [])
      ≡ true
covers-next r names = elim (Bool-cases (has_name (to_ascii_lowercase r) names)) [
  | inl e ↦ rw e (covers-has_name r names e)
  | inr e ↦ rw e (covers-append_last r names)
]

covers-add_names :
    (r : Text) (extra : Headers) (names : List Text)
    → covers r names ≡ true
    → covers r (add_names extra names) ≡ true
unfolding add_names
covers-add_names r [] names h = h
covers-add_names r ((name, value) ∷ more) names h =
    elim (Bool-cases (has_name (to_ascii_lowercase name) names)) [
      | inl e ↦ rw e (covers-add_names r more names h)
      | inr e ↦ rw e (covers-add_names r more _ (covers-append r names _ h))
    ]

covers-added :
    (extra : Headers) (names : List Text)
    → All (λ e. covers e.0 (add_names extra names) ≡ true) extra
unfolding add_names
covers-added [] names = tt
covers-added ((name, value) ∷ more) names =
    let next : List Text =
      if has_name (to_ascii_lowercase name) names
      then names
      else names ++ to_ascii_lowercase name ∷ [] in
    (covers-add_names name more next (covers-next name names), covers-added more next)

-- A signature over what is to be signed covers each further header.
pub covers-headers_to_sign :
    (extra : Headers) → All (λ e. covers e.0 (headers_to_sign extra) ≡ true) extra
unfolding headers_to_sign
covers-headers_to_sign extra = covers-added extra _

require-All :
    (s : HttpSignature) (required : List Text)
    → All (λ r. covers r s.headers ≡ true) required
    → require_signed_headers s required ≡ ok tt
unfolding require_signed_headers
require-All s [] h = refl
require-All s (r ∷ more) h = rw (h.0, require-All s more h.1) refl

base_covers : All (λ r. covers r (headers_to_sign []) ≡ true) required_headers
unfolding covers headers_to_sign add_names text_eq to_ascii_lowercase bytes
base_covers = (refl, (refl, (refl, (refl, tt))))

-- It covers the headers that an inbound signature must cover.
pub require-headers_to_sign :
    (s : HttpSignature) (extra : Headers)
    → s.headers ≡ headers_to_sign extra
    → require_signed_headers s required_headers ≡ ok tt
unfolding headers_to_sign add_names
require-headers_to_sign s extra e = require-All s required_headers (
    All-imp (λ r h. ap (covers r) e ∙ covers-add_names r extra (headers_to_sign []) h)
      required_headers base_covers)
