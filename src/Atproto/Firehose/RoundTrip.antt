-- ===== src/Atproto/Firehose/RoundTrip.antt =====
-- A JSON value that becomes DAG-CBOR for the repository is the one that the firehose reads.
use dais.Base.{
  true, none, ok, ◌≡◌, ◌≢◌, refl, arith, >>=-eq-ok, ok-injective, Option-cases, inl, inr,
}
use mathlib.Core.Path.{subst}
use dais.Ipld.{Ipld, Items, Fields, ℤ, pos, negsuc}
use dais.Json.{Value, Values, Members}
use dais.Formats.{Formats, IsLawful, InI64}
use dais.Atproto.Repo.Records.Plain.{
  json_to_plain_ipld, items_to_ipld, members_to_ipld, number_ipld,
}
use dais.Atproto.Firehose.Json.{ipld_to_json, items_to_json, fields_to_json, integer_json, fits_i64}

module _ {C F N : Type 0} (x : Formats C F N) (laws : IsLawful x) where
  -- Every number is one of an `i64`.
  unfoldable mutual
    pub Small : Value N → Type 0
    Small Value.null = Unit
    Small (Value.bool b) = Unit
    Small (Value.number n) = x.as_i64 n ≢ none
    Small (Value.string s) = Unit
    Small (Value.array vs) = AllSmall vs
    Small (Value.object m) = SmallMembers m

    pub AllSmall : Values N → Type 0
    AllSmall Values.nil = Unit
    AllSmall (Values.cons v rest) = Small v × AllSmall rest

    pub SmallMembers : Members N → Type 0
    SmallMembers Members.end = Unit
    SmallMembers (Members.member k v rest) = Small v × SmallMembers rest

  fits_i64-InI64 : (i : ℤ) → InI64 i → fits_i64 i ≡ true
  unfolding fits_i64
  fits_i64-InI64 (pos n) h = ground arith
  fits_i64-InI64 (negsuc n) h = ground arith

  back : {v : Value N} {a b : Ipld C F} → a ≡ b → ipld_to_json x a ≡ ok v → ipld_to_json x b ≡ ok v
  back {v} e h = subst (λ i. ipld_to_json x i ≡ ok v) e h

  integer_json-number :
      (n : N) (ipld : Ipld C F)
      → x.as_i64 n ≢ none
      → number_ipld x (x.as_i64 n) (x.as_u64 n) ≡ ok ipld
      → ipld_to_json x ipld ≡ ok (Value.number n)
  unfolding number_ipld ipld_to_json integer_json
  integer_json-number n ipld small h = elim (Option-cases (x.as_i64 n)) [
    | inr (i, e) ↦
        let read = (rw e at h) in
        subst (λ v. ipld_to_json x v ≡ ok (Value.number n)) (ok-injective read)
          (rw (fits_i64-InI64 i (laws.as_i64-InI64 n i e), laws.from_i64-as_i64 n i e))
    | inl e ↦ absurd (small e)
  ]

  mutual
    unfolding json_to_plain_ipld ipld_to_json Small

    value_back :
        (v : Value N) (ipld : Ipld C F)
        → Small v
        → json_to_plain_ipld x v ≡ ok ipld
        → ipld_to_json x ipld ≡ ok v
    value_back Value.null ipld small h = back (ok-injective h) refl
    value_back (Value.bool b) ipld small h = back (ok-injective h) refl
    value_back (Value.number n) ipld small h = integer_json-number n ipld small h
    value_back (Value.string s) ipld small h = back (ok-injective h) refl
    value_back (Value.array vs) ipld small h =
        let (items, e, e') = >>=-eq-ok (items_to_ipld x vs) _ h in
        back (ok-injective e') (rw (items_back vs items small e))
    value_back (Value.object m) ipld small h =
        let (fields, e, e') = >>=-eq-ok (members_to_ipld x m) _ h in
        back (ok-injective e') (rw (members_back m fields small e))

    items_back :
        (vs : Values N) (items : Items C F)
        → AllSmall vs
        → items_to_ipld x vs ≡ ok items
        → items_to_json x items ≡ ok vs
    items_back Values.nil items small h =
        subst (λ l. items_to_json x l ≡ ok Values.nil) (ok-injective h) refl
    items_back (Values.cons v rest) items small h =
        let (item, e, e') = >>=-eq-ok (json_to_plain_ipld x v) _ h in
        let (more, k, k') = >>=-eq-ok (items_to_ipld x rest) _ e' in
        subst (λ l. items_to_json x l ≡ ok (Values.cons v rest)) (ok-injective k')
          (rw (value_back v item small.0 e, items_back rest more small.1 k))

    members_back :
        (m : Members N) (fields : Fields C F)
        → SmallMembers m
        → members_to_ipld x m ≡ ok fields
        → fields_to_json x fields ≡ ok m
    members_back Members.end fields small h =
        subst (λ l. fields_to_json x l ≡ ok Members.end) (ok-injective h) refl
    members_back (Members.member name v rest) fields small h =
        let (value, e, e') = >>=-eq-ok (json_to_plain_ipld x v) _ h in
        let (more, k, k') = >>=-eq-ok (members_to_ipld x rest) _ e' in
        subst (λ l. fields_to_json x l ≡ ok (Members.member name v rest)) (ok-injective k')
          (rw (value_back v value small.0 e, members_back rest more small.1 k))

  -- A JSON value whose numbers fit `i64` comes back from its DAG-CBOR form as it was.
  pub ipld_to_json-json_to_plain_ipld :
      (v : Value N) (ipld : Ipld C F)
      → Small v
      → json_to_plain_ipld x v ≡ ok ipld
      → ipld_to_json x ipld ≡ ok v
  ipld_to_json-json_to_plain_ipld v ipld small h = value_back v ipld small h
