-- ===== src/Webfinger/Handles.antt =====
-- The handles that are answered, and the one that is advertised.
use mathlib.Core.Path.{subst}
use dais.Base.{
  cut, push_front, split, strip_prefix, Lacks, ℕ, Text, bytes, List, [], ◌∷◌, ◌++◌, Option, none,
  some, true, false, ok, ◌≡◌, refl, sym, ap, ◌∙◌, arith, text_eq, text_eq_iff, ◌==◌, ◌⊎◌, inl, inr,
  >>=-eq-ok, ok-injective, Bool-cases, ok_or, invalid_activity, ◌>>=◌,
}
use dais.Formats.{Formats}
use dais.Activitypub.Federation.{Database}
use dais.Webfinger.{
  WebFingerResponse, two_parts, parse_account, response_for, find_user, answer, handle_webfinger,
}

strip_prefix-append : (p t : Text) → strip_prefix p (p ++ t) ≡ some t
unfolding strip_prefix
strip_prefix-append [] t = refl
strip_prefix-append (c ∷ p) t = ground (arith, strip_prefix-append p t)

strip_prefix_sound : (p t rest : Text) → strip_prefix p t ≡ some rest → t ≡ p ++ rest
unfolding strip_prefix
strip_prefix_sound [] t rest h = cc
strip_prefix_sound (c ∷ p) [] rest h = cc
strip_prefix_sound (c ∷ p) (d ∷ t) rest h = ground (arith, strip_prefix_sound p t rest)

split_one : (c : ℕ) (t : Text) → Lacks c t → split c t ≡ (t, [])
unfolding split
split_one c [] h = refl
split_one c (d ∷ t) h = rw (h.0, split_one c t h.1)

split-append : (c : ℕ) (u d : Text) → Lacks c u → Lacks c d → split c (u ++ c ∷ d) ≡ (u, d ∷ [])
unfolding split
split-append c [] d h k = rw (split_one c d k) (ground arith)
split-append c (e ∷ u) d h k = rw (h.0, split-append c u d h.1 k)

-- The parts of a text lack the separator, and make up the text.
abbrev Parts : ℕ → Text → Text × List Text → Type 0
Parts c t (u, []) = (t ≡ u) × Lacks c u
Parts c t (u, d ∷ []) = (t ≡ u ++ c ∷ d) × Lacks c u × Lacks c d
Parts c t (u, d ∷ e ∷ rest) = Unit

cut-Parts :
    (c e : ℕ) (t : Text) (r : Text × List Text)
    → (e == c) ≡ true
    → Parts c t r
    → Parts c (e ∷ t) (cut r)
unfolding cut
cut-Parts c e t (u, []) h (same, lacks) =
    let head : e ≡ c = ground arith in (cc (head, same), tt, lacks)
cut-Parts c e t (u, d ∷ rest) h parts = tt

push_front-Parts :
    (c e : ℕ) (t : Text) (r : Text × List Text)
    → (e == c) ≡ false
    → Parts c t r
    → Parts c (e ∷ t) (push_front e r)
unfolding push_front
push_front-Parts c e t (u, []) h (same, lacks) = (cc (same), (h, lacks))
push_front-Parts c e t (u, d ∷ []) h (same, lacks, lacks') = (cc (same), (h, lacks), lacks')
push_front-Parts c e t (u, d ∷ f ∷ rest) h parts = tt

split-Parts : (c : ℕ) (t : Text) → Parts c t (split c t)
unfolding split
split-Parts c [] = (refl, tt)
split-Parts c (e ∷ t) = elim (Bool-cases (e == c)) [
  | inl same ↦ rw same (cut-Parts c e t (split c t) same (split-Parts c t))
  | inr other ↦ rw other (push_front-Parts c e t (split c t) other (split-Parts c t))
]

two_parts_sound :
    (t : Text) (r : Text × List Text) (username domain : Text)
    → Parts 64 t r
    → two_parts r ≡ ok (username, domain)
    → (t ≡ username ++ 64 ∷ domain) × Lacks 64 username × Lacks 64 domain
unfolding two_parts
two_parts_sound t (u, []) username domain parts h = cc
two_parts_sound t (u, d ∷ []) username domain parts h =
    subst (λ p. (t ≡ p.0 ++ 64 ∷ p.1) × Lacks 64 p.0 × Lacks 64 p.1) (ok-injective h) parts
two_parts_sound t (u, d ∷ e ∷ rest) username domain parts h = cc

prefix_of :
    (o : Option Text) (rest : Text)
    → ok_or (invalid_activity (bytes "Invalid resource format. Expected acct:user@domain")) o
      ≡ ok rest
    → o ≡ some rest
prefix_of none rest h = cc
prefix_of (some t) rest h = ap some (ok-injective h)

-- A resource is only read as a user and a domain where it is made up of them.
parse_account_sound :
    (resource username domain : Text)
    → parse_account resource ≡ ok (username, domain)
    → (resource ≡ bytes "acct:" ++ (username ++ 64 ∷ domain)) × Lacks 64 username × Lacks 64 domain
unfolding parse_account
parse_account_sound resource username domain h =
    let (account, e, e') = >>=-eq-ok (ok_or _ (strip_prefix (bytes "acct:") resource)) _ h in
    let whole = strip_prefix_sound (bytes "acct:") resource account (prefix_of _ account e) in
    let (joined, lacks, lacks') =
      two_parts_sound account (split 64 account) username domain (split-Parts 64 account) e' in
    (whole ∙ ap (λ t. bytes "acct:" ++ t) joined, lacks, lacks')

parse_account-append :
    (username domain : Text)
    → Lacks 64 username
    → Lacks 64 domain
    → parse_account (bytes "acct:" ++ (username ++ 64 ∷ domain)) ≡ ok (username, domain)
unfolding parse_account two_parts
parse_account-append username domain h k = rw (
  strip_prefix-append (bytes "acct:") (username ++ 64 ∷ domain),
  split-append 64 username domain h k,
)

module _ {C F N : Type 0} (x : Formats C F N) (db : Database N)
    (configured_domain activitypub_domain : Text) where
  found_user :
      (username : Text) (given response : WebFingerResponse)
      → (find_user x db username >>= λ u. ok given) ≡ ok response
      → (find_user x db username ≡ ok tt) × (response ≡ given)
  found_user username given response h =
      let (u, e, e') = >>=-eq-ok (find_user x db username) _ h in (e, sym (ok-injective e'))

  answer_sound :
      (username domain : Text) (response : WebFingerResponse)
      → answer x db configured_domain activitypub_domain (username, domain) ≡ ok response
      → ((domain ≡ configured_domain) ⊎ (domain ≡ activitypub_domain))
        × (find_user x db username ≡ ok tt)
        × (response ≡ response_for configured_domain activitypub_domain username)
  unfolding answer
  answer_sound username domain response h =
      let found =
        found_user username (response_for configured_domain activitypub_domain username) response in
      elim (Bool-cases (text_eq domain configured_domain)) [
        | inl apex ↦
            let (user, same) = found (rw apex at h) in
            (inl ((text_eq_iff domain configured_domain).0 apex), user, same)
        | inr other ↦ elim (Bool-cases (text_eq domain activitypub_domain)) [
          | inl sub ↦
              let (user, same) = found (rw (other, sub) at h) in
              (inr ((text_eq_iff domain activitypub_domain).0 sub), user, same)
          | inr neither ↦ let refused = (rw (other, neither) at h) in cc (refused)
        ]
      ]

  -- An answer is to a resource `acct:user@domain` of one of the two domains, for a user that the
  -- database has and whose name has no `@`, and names that user under both domains.
  pub handle_webfinger_sound :
      (resource : Text) (response : WebFingerResponse)
      → handle_webfinger x db resource configured_domain activitypub_domain ≡ ok response
      → (username : Text) × (domain : Text) × (resource
          ≡ bytes "acct:" ++ (username ++ 64 ∷ domain))
        × ((domain ≡ configured_domain) ⊎ (domain ≡ activitypub_domain))
        × (find_user x db username ≡ ok tt)
        × Lacks 64 username
        × (response ≡ response_for configured_domain activitypub_domain username)
  unfolding handle_webfinger
  handle_webfinger_sound resource response h =
      let ((username, domain), e, e') = >>=-eq-ok (parse_account resource) _ h in
      let (whole, lacks, _) = parse_account_sound resource username domain e in
      let (either, found, same) = answer_sound username domain response e' in
      (username, domain, whole, either, found, lacks, same)

  parse_account-subject :
      (username : Text)
      → Lacks 64 username
      → Lacks 64 configured_domain
      → parse_account (response_for configured_domain activitypub_domain username).subject
        ≡ ok (username, configured_domain)
  unfolding response_for bytes
  parse_account-subject username lacks clean =
      parse_account-append username configured_domain lacks clean

  advertised :
      (username : Text)
      → Lacks 64 username
      → Lacks 64 configured_domain
      → find_user x db username ≡ ok tt
      → handle_webfinger x db
          (response_for configured_domain activitypub_domain username).subject
          configured_domain
          activitypub_domain
        ≡ ok (response_for configured_domain activitypub_domain username)
  unfolding handle_webfinger answer
  advertised username lacks clean found = rw (
    parse_account-subject username lacks clean,
    (text_eq_iff configured_domain configured_domain).1 refl,
    found,
  )

  -- The handle that an answer advertises is answered in the same way, if the configured domain has
  -- no `@`.
  pub handle_webfinger_canonical :
      (resource : Text) (response : WebFingerResponse)
      → Lacks 64 configured_domain
      → handle_webfinger x db resource configured_domain activitypub_domain ≡ ok response
      → handle_webfinger x db response.subject configured_domain activitypub_domain ≡ ok response
  handle_webfinger_canonical resource response clean h =
      let (username, domain, whole, either, found, lacks, same) =
        handle_webfinger_sound resource response h in
      subst (λ r. handle_webfinger x db r.subject configured_domain activitypub_domain ≡ ok r)
        (sym same) (advertised username lacks clean found)
