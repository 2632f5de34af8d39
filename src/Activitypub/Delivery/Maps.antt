-- ===== src/Activitypub/Delivery/Maps.antt =====
-- Maps of headers with names as they are written, and with names in lower case, as
-- core/src/activitypub/delivery.rs fills both.
use dais.Base.{
  Text, List, [], ◌∷◌, ◌++◌, some, false, ◌≡◌, refl, sym, ◌∙◌, ap, arith, inl, inr, Bool-cases, All,
  All-append, text_eq, text_eq_iff, to_ascii_lowercase, if◌then◌else◌,
}
use dais.Activitypub.Signatures.Attempt.{Headers, get_header}
use dais.Activitypub.Delivery.Posting.{
  insert_header, without_header, insert_lowered, insert_all, add_names, has_name,
}

-- The headers as a server keeps them, with names in lower case. Of two whose names differ only in case,
-- the one that was added last comes first.
abbrev pub received : Headers → Headers
received [] = []
received ((name, value) ∷ more) = (to_ascii_lowercase name, value) ∷ received more

get-without :
    (n name : Text) (h : Headers)
    → text_eq name n ≡ false
    → get_header n (without_header name h) ≡ get_header n h
unfolding get_header without_header
get-without n name [] other = refl
get-without n name ((key, value) ∷ more) other = ground (
  arith,
  text_eq_iff key name,
  text_eq_iff key n,
  text_eq_iff name n,
  get-without n name more other,
)

get-insert :
    (n name value : Text) (h : Headers)
    → get_header n (insert_header name value h)
      ≡ (if text_eq name n then some value else get_header n h)
unfolding get_header insert_header
get-insert n name value h = elim (Bool-cases (text_eq name n)) [
  | inl e ↦ rw e refl
  | inr e ↦ rw e (get-without n name h e)
]

get-received-without :
    (n name : Text) (h : Headers)
    → text_eq (to_ascii_lowercase name) n ≡ false
    → get_header n (received (without_header name h)) ≡ get_header n (received h)
unfolding get_header without_header
get-received-without n name [] other = refl
get-received-without n name ((key, value) ∷ more) other = elim (Bool-cases (text_eq key name)) [
  | inl e ↦
      let off : text_eq (to_ascii_lowercase key) n ≡ false =
        ap (λ t. text_eq (to_ascii_lowercase t) n) ((text_eq_iff key name).0 e) ∙ other in
      rw (e, off) (get-received-without n name more other)
  | inr e ↦ rw e (
      ap (λ o. if text_eq (to_ascii_lowercase key) n then some value else o)
        (get-received-without n name more other))
]

get-received-insert :
    (n name value : Text) (h : Headers)
    → get_header n (received (insert_header name value h))
      ≡ (if text_eq (to_ascii_lowercase name) n then some value else get_header n (received h))
unfolding get_header insert_header
get-received-insert n name value h = elim (Bool-cases (text_eq (to_ascii_lowercase name) n)) [
  | inl e ↦ rw e refl
  | inr e ↦ rw e (get-received-without n name h e)
]

-- A name has the same value in both maps.
abbrev pub Agree : Headers → Headers → Text → Type 0
Agree sent signed n = get_header n (received sent) ≡ get_header n signed

Agree-insert :
    (n name value : Text) (sent signed : Headers)
    → Agree sent signed n
    → Agree (insert_header name value sent) (insert_header (to_ascii_lowercase name) value signed) n
Agree-insert n name value sent signed same =
    get-received-insert n name value sent
    ∙ ap (λ o. if text_eq (to_ascii_lowercase name) n then some value else o) same
    ∙ sym (get-insert n (to_ascii_lowercase name) value signed)

Agree-inserted :
    (name value : Text) (sent signed : Headers)
    → Agree
        (insert_header name value sent)
        (insert_header (to_ascii_lowercase name) value signed)
        (to_ascii_lowercase name)
Agree-inserted name value sent signed =
    let self = (text_eq_iff (to_ascii_lowercase name) (to_ascii_lowercase name)).1 refl in
    rw
      (
        get-received-insert (to_ascii_lowercase name) name value sent,
        get-insert (to_ascii_lowercase name) (to_ascii_lowercase name) value signed,
        self,
      )
      refl

pub Agree-all :
    (n : Text) (extra sent signed : Headers)
    → Agree sent signed n
    → Agree (insert_all extra sent) (insert_lowered extra signed) n
unfolding insert_all insert_lowered
Agree-all n [] sent signed same = same
Agree-all n ((name, value) ∷ more) sent signed same =
    Agree-all n more _ _ (Agree-insert n name value sent signed same)

-- A header that was added has the value that was signed, whatever stood there before.
pub Agree-extra :
    (extra sent signed : Headers)
    → All
        (λ e. Agree (insert_all extra sent) (insert_lowered extra signed) (to_ascii_lowercase e.0))
        extra
unfolding insert_all insert_lowered
Agree-extra [] sent signed = tt
Agree-extra ((name, value) ∷ more) sent signed = (
  Agree-all (to_ascii_lowercase name) more _ _ (Agree-inserted name value sent signed),
  Agree-extra more _ _,
)

-- A header that none of those added replaces.
pub get-received-all :
    (n : Text) (extra h : Headers)
    → All (λ e. text_eq (to_ascii_lowercase e.0) n ≡ false) extra
    → get_header n (received (insert_all extra h)) ≡ get_header n (received h)
unfolding insert_all
get-received-all n [] h other = refl
get-received-all n ((name, value) ∷ more) h other =
    get-received-all n more _ other.1 ∙ get-received-insert n name value h ∙ rw other.0 refl

pub add_names-All {κ} :
    (P : Text → Type κ) (extra : Headers) (names : List Text)
    → All P names
    → All (λ e. P (to_ascii_lowercase e.0)) extra
    → All P (add_names extra names)
unfolding add_names
add_names-All P [] names p q = p
add_names-All P ((name, value) ∷ more) names p q =
    elim (Bool-cases (has_name (to_ascii_lowercase name) names)) [
      | inl e ↦ rw e (add_names-All P more names p q.1)
      | inr e ↦ rw e (
          add_names-All P more (names ++ to_ascii_lowercase name ∷ [])
            (All-append P names (to_ascii_lowercase name ∷ []) p (q.0, tt)) q.1)
    ]
