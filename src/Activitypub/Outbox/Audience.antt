-- ===== src/Activitypub/Outbox/Audience.antt =====
-- A note of core/src/activitypub/outbox.rs, as the inbox of core/src/activitypub/inbox.rs reads it.
use dais.Base.{
  ℕ, Text, bytes, List, [], ◌∷◌, ◌++◌, Option, none, some, Bool, true, false, ◌≡◌, refl, sym, ◌∙◌,
  ap, arith, inl, inr, if◌then◌else◌, text_eq, text_eq_iff, text_cmp, text_cmp-eq, Bool-cases,
  Ordering-cases, All,
}
use dais.Json.{Value, Members, get, get_member, as_array, as_str}
use dais.Formats.{Formats}
use dais.Activitypub.Types.{Services}
use dais.Activitypub.Inbox.Objects.{public_address, infer_note_visibility, has_str, any_str}
use dais.Activitypub.Outbox.Tags.{parse_poll_options}
use dais.Activitypub.Outbox.Notes.{
  Post, PostInteractions, note_audience, set_member, set_some, set_poll, set_poll_of, values_of,
  base_members, note_members, build_note_object,
}

module _ {N : Type 0} (key : Text) where
  -- Setting another key leaves a member as it is.
  get-set_member :
      (k : Text) (v : Value N) (m : Members N)
      → text_eq k key ≡ false
      → get_member key (set_member k v m) ≡ get_member key m
  unfolding get_member set_member
  get-set_member k v Members.end other = rw other refl
  get-set_member k v (Members.member j w rest) other = elim (Ordering-cases (text_cmp k j)) [
    | inl e ↦ rw (e, get_member, other) refl
    | inr (inl e) ↦
        let same : text_eq j key ≡ false =
          ap (λ t. text_eq t key) (sym (text_cmp-eq k j e)) ∙ other in
        rw (e, get_member, other, same) refl
    | inr (inr e) ↦ rw (e, get_member, get-set_member k v rest other) refl
  ]

  get-set_some :
      (k : Text) (o : Option (Value N)) (m : Members N)
      → text_eq k key ≡ false
      → get_member key (set_some k o m) ≡ get_member key m
  unfolding set_some
  get-set_some k none m other = refl
  get-set_some k (some v) m other = get-set_member k v m other

-- The keys that a note may have besides those of every note.
abbrev added_keys : List Text
added_keys =
    bytes "daisEncryptedMessage"
    ∷ bytes "tag"
    ∷ bytes "attachment"
    ∷ bytes "inReplyTo"
    ∷ bytes "votersCount"
    ∷ bytes "anyOf"
    ∷ bytes "oneOf"
    ∷ bytes "location"
    ∷ bytes "endTime"
    ∷ bytes "startTime"
    ∷ bytes "summary"
    ∷ bytes "name"
    ∷ bytes "contentMap"
    ∷ []

abbrev IsOther : Text → Type 0
IsOther key = All (λ k. text_eq k key ≡ false) added_keys

module _ {C F N : Type 0} (x : Formats C F N) (s : Services F N) where
  get-set_poll :
      (key : Text) (o : Option Text) (m : Members N)
      → text_eq (bytes "votersCount") key ≡ false
      → text_eq (bytes "anyOf") key ≡ false
      → text_eq (bytes "oneOf") key ≡ false
      → get_member key (set_poll_of x s o m) ≡ get_member key m
  unfolding set_poll_of
  get-set_poll key none m a b c = refl
  get-set_poll key (some t) m a b c = parsed_case (parse_poll_options s t)
    where
      parsed_case :
          (p : Option (Bool × List Text)) → get_member key (set_poll x s p m) ≡ get_member key m
      parsed_case none = refl
      parsed_case (some (true, options)) = get-set_member key _ _ _ a ∙ get-set_member key _ _ m b
      parsed_case (some (false, options)) = get-set_member key _ _ _ a ∙ get-set_member key _ _ m c

  get-note_members :
      (key : Text) (post : Post) (interactions : PostInteractions)
      → IsOther key
      → get_member key (note_members x s post interactions)
        ≡ get_member key (base_members x s post interactions)
  unfolding note_members
  get-note_members key post interactions
        (k0, (k1, (k2, (k3, (k4, (k5, (k6, (k7, (k8, (k9, (k10, (k11, (k12, u))))))))))))) =
      get-set_some key _ _ _ k0
      ∙ get-set_some key _ _ _ k1
      ∙ get-set_some key _ _ _ k2
      ∙ get-set_some key _ _ _ k3
      ∙ get-set_poll key post.poll_options _ k4 k5 k6
      ∙ get-set_some key _ _ _ k7
      ∙ get-set_some key _ _ _ k8
      ∙ get-set_some key _ _ _ k9
      ∙ get-set_some key _ _ _ k10
      ∙ get-set_some key _ _ _ k11
      ∙ get-set_some key _ _ _ k12

  to-IsOther : IsOther (bytes "to")
  unfolding text_eq bytes
  to-IsOther = (
    refl,
    (
      refl,
      (refl, (refl, (refl, (refl, (refl, (refl, (refl, (refl, (refl, (refl, (refl, tt))))))))))),
    ),
  )

  cc-IsOther : IsOther (bytes "cc")
  unfolding text_eq bytes
  cc-IsOther = (
    refl,
    (
      refl,
      (refl, (refl, (refl, (refl, (refl, (refl, (refl, (refl, (refl, (refl, (refl, tt))))))))))),
    ),
  )

  audience_of : Post → List Text × List Text
  audience_of post = note_audience post.visibility (post.actor_id ++ bytes "/followers")

  get-to :
      (post : Post) (o : Option PostInteractions)
      → get (bytes "to") (build_note_object x s post o)
        ≡ some (Value.array (values_of (audience_of post).0))
  unfolding build_note_object base_members get get_member text_eq bytes audience_of
  get-to post none = get-note_members (bytes "to") post _ to-IsOther
  get-to post (some interactions) = get-note_members (bytes "to") post interactions to-IsOther

  get-cc :
      (post : Post) (o : Option PostInteractions)
      → get (bytes "cc") (build_note_object x s post o)
        ≡ some (Value.array (values_of (audience_of post).1))
  unfolding build_note_object base_members get get_member text_eq bytes audience_of
  get-cc post none = get-note_members (bytes "cc") post _ cc-IsOther
  get-cc post (some interactions) = get-note_members (bytes "cc") post interactions cc-IsOther

last : Text → ℕ
last [] = 0
last (c ∷ []) = c
last (c ∷ d ∷ t) = last (d ∷ t)

last-append : (u : Text) (c : ℕ) (t : Text) → last (u ++ c ∷ t) ≡ last (c ∷ t)
unfolding last
last-append [] c t = refl
last-append (a ∷ []) c t = refl
last-append (a ∷ b ∷ u) c t = last-append (b ∷ u) c t

-- A collection of followers is not the public address: their last letters differ.
followers_other :
    (actor_id : Text) → text_eq (actor_id ++ bytes "/followers") public_address ≡ false
unfolding bytes last
followers_other actor_id =
    elim (Bool-cases (text_eq (actor_id ++ bytes "/followers") public_address)) [
      | inr e ↦ e
      | inl e ↦
          let same = ap last ((text_eq_iff (actor_id ++ bytes "/followers") public_address).0 e) in
          let ends = last-append actor_id 47 (bytes "followers") in
          absurd (omega (arith, same, ends))
    ]

public_self : text_eq public_address public_address ≡ true
public_self = (text_eq_iff public_address public_address).1 refl

-- The visibility that a reader of a note can tell.
abbrev pub told : Text → Text
told visibility =
    if text_eq visibility (bytes "public")
    then bytes "public"
    else if text_eq visibility (bytes "unlisted")
    then bytes "unlisted"
    else bytes "followers"

module _ {C F N : Type 0} (x : Formats C F N) (s : Services F N) where
  -- The inbox reads the visibility off a note that the outbox has built: public and unlisted posts as
  -- they are, and all others as posts for followers.
  pub infer_note_visibility-build_note_object :
      (post : Post) (o : Option PostInteractions)
      → infer_note_visibility (build_note_object x s post o) ≡ told post.visibility
  unfolding infer_note_visibility any_str as_array as_str has_str values_of note_audience
      audience_of
  infer_note_visibility-build_note_object post o =
      elim (Bool-cases (text_eq post.visibility (bytes "public"))) [
        | inl p ↦ rw (get-to x s post o, get-cc x s post o, p, public_self) refl
        | inr np ↦ elim (Bool-cases (text_eq post.visibility (bytes "unlisted"))) [
          | inl u ↦
              rw
                (
                  get-to x s post o,
                  get-cc x s post o,
                  np,
                  u,
                  followers_other post.actor_id,
                  public_self,
                )
                refl
          | inr nu ↦ elim (Bool-cases (text_eq post.visibility (bytes "direct"))) [
            | inl d ↦ rw (get-to x s post o, get-cc x s post o, np, nu, d) refl
            | inr nd ↦
                rw (get-to x s post o, get-cc x s post o, np, nu, nd, followers_other post.actor_id)
                  refl
          ]
        ]
      ]
