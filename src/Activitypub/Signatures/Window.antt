-- ===== src/Activitypub/Signatures/Window.antt =====
-- What a request has that passes the policy of core/src/activitypub/signatures.rs.
use dais.Base.{
  ℕ, ◌≤◌, Text, bytes, [], ◌∷◌, Option, none, some, false, ◌≡◌, refl, arith, ok, err, Bool-cases,
  inl, inr, ltb, All, is_blank,
}
use dais.Activitypub.Signatures.Attempt.{
  Attempt, Headers, get_header, Chrono, map_err, ok_or, ◌>>=◌,
}
use dais.Activitypub.Signatures.Header.{HttpSignature}
use dais.Activitypub.Signatures.Policy.{
  required_headers, validate_http_date_window, require_digest,
  validate_inbound_post_signature_policy, inbound_signature_max_skew_seconds,
}
use dais.Activitypub.Signatures.Laws.{IsCovered, require_signed_headers_sound}

bind-ok :
    {A B : Type 0} (m : Attempt A) (f : A → Attempt B) (b : B)
    → (m >>= f) ≡ ok b
    → (a : A) × (m ≡ ok a) × (f a ≡ ok b)
bind-ok (ok a) f b h = (a, refl, h)
bind-ok (err e) f b h = cc

ok_or-some : {A : Type 0} (e : Text) (o : Option A) (a : A) → ok_or e o ≡ ok a → o ≡ some a
ok_or-some e none a h = cc
ok_or-some e (some b) a h = cc

map_err-ok : {A : Type 0} (f : Text → Text) (m : Attempt A) (a : A) → map_err f m ≡ ok a → m ≡ ok a
map_err-ok f (ok b) a h = cc
map_err-ok f (err e) a h = cc

module _ {T : Type 0} (chrono : Chrono T) where
  validate_http_date_window_sound :
      (date : Text) (now : T) (skew : ℕ)
      → validate_http_date_window chrono date now skew ≡ ok tt
      → (signed_at : T) × (chrono.parse_rfc2822 date ≡ ok signed_at)
        × (chrono.seconds_between now signed_at ≤ skew)
  unfolding validate_http_date_window
  validate_http_date_window_sound date now skew h =
      let (signed_at, parsed, inside) = bind-ok _ _ tt h in
      (
        signed_at,
        map_err-ok _ (chrono.parse_rfc2822 date) signed_at parsed,
        elim (Bool-cases (ltb skew (chrono.seconds_between now signed_at))) [
          | inl e ↦ let bad = (rw e at inside) in cc (bad)
          | inr e ↦ ground arith
        ],
      )

  require_digest_sound :
      (digest : Text) → require_digest chrono digest ≡ ok tt → is_blank digest ≡ false
  unfolding require_digest
  require_digest_sound digest h = elim (Bool-cases (is_blank digest)) [
    | inl e ↦ let bad = (rw e at h) in cc (bad)
    | inr e ↦ e
  ]

  -- A request that passes the policy has a signature over the request target, the host, the date and
  -- the digest, a digest that is not blank, and a date at most 12 hours (43200 seconds) from now.
  pub validate_inbound_post_signature_policy_sound :
      (s : HttpSignature) (headers : Headers) (now : T)
      → validate_inbound_post_signature_policy chrono s headers now ≡ ok tt
      → All
          (IsCovered s.headers)
          (bytes "(request-target)" ∷ bytes "host" ∷ bytes "date" ∷ bytes "digest" ∷ [])
        × ((digest : Text) × (get_header (bytes "digest") headers ≡ some digest)
            × (is_blank digest ≡ false))
        × ((date : Text) × (signed_at : T) × (get_header (bytes "date") headers ≡ some date)
            × (chrono.parse_rfc2822 date ≡ ok signed_at)
            × (chrono.seconds_between now signed_at ≤ 43200))
  unfolding validate_inbound_post_signature_policy
  validate_inbound_post_signature_policy_sound s headers now h =
      let (u, covered_and_digest, dated) = bind-ok _ _ tt h in
      let (v, covered, digested) = bind-ok _ _ u covered_and_digest in
      let (digest, digest_found, digest_good) = bind-ok _ _ u digested in
      let (date, date_found, date_good) = bind-ok _ _ tt dated in
      let (signed_at, parsed, near) =
        validate_http_date_window_sound date now inbound_signature_max_skew_seconds date_good in
      (
        require_signed_headers_sound s required_headers covered,
        (digest, ok_or-some _ _ digest digest_found, require_digest_sound digest digest_good),
        (date, signed_at, ok_or-some _ _ date date_found, parsed, omega (arith, near)),
      )
