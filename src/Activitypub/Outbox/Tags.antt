-- ===== src/Activitypub/Outbox/Tags.antt =====
-- Hashtags, mentions and polls, of core/src/activitypub/outbox.rs.
use dais.Base.{
  ℕ, Text, bytes, List, [], ◌∷◌, ◌++◌, Option, none, some, Bool, true, false, ◌&&◌, ◌||◌, not, leb,
  ◌==◌, Result, ok, err, if◌then◌else◌, text_eq, strip_prefix, split, trim, split_whitespace,
}
use dais.Ipld.{pos}
use dais.Json.{Value, Values, Members, get, as_str, as_array}
use dais.Formats.{Formats}
use dais.Activitypub.Types.{Services}

is_alphanumeric : ℕ → Bool
is_alphanumeric c = (leb 48 c && leb c 57) || (leb 65 c && leb c 90) || (leb 97 c && leb c 122)

all_chars : (ℕ → Bool) → Text → Bool
all_chars p [] = true
all_chars p (c ∷ t) = p c && all_chars p t

is_empty : Text → Bool
is_empty [] = true
is_empty (c ∷ t) = false

-- The characters around a token.
is_punctuation : ℕ → Bool
is_punctuation c =
    c == 46
    || c == 44
    || c == 59
    || c == 58
    || c == 33
    || c == 63
    || c == 41
    || c == 93
    || c == 125
    || c == 34
    || c == 39

drop_front : Text → Text
drop_front [] = []
drop_front (c ∷ t) = let rest = drop_front t in if is_punctuation c then rest else c ∷ t

drop_back : Text → Text
drop_back [] = []
drop_back (c ∷ t) = elim (drop_back t) [
  | [] ↦ if is_punctuation c then [] else c ∷ []
  | d ∷ rest ↦ c ∷ d ∷ rest
]

unfoldable pub trim_token : Text → Text
unfolding drop_front drop_back is_punctuation
trim_token token = drop_back (drop_front token)

link_tag : {N : Type 0} → Text → Text → Text → Value N
link_tag href name kind = Value.object (
    Members.member (bytes "href") (Value.string href) (
      Members.member (bytes "name") (Value.string name)
        (Members.member (bytes "type") (Value.string kind) Members.end)))

hashtag_of : {N : Type 0} → Option Text → Option (Value N)
unfolding link_tag
hashtag_of none = none
hashtag_of (some name) =
    if is_empty name || not (all_chars (λ c. is_alphanumeric c || c == 95) name)
    then none
    else some (
        link_tag (bytes "https://social.dais.social/tags/" ++ name) (bytes "#" ++ name)
          (bytes "Hashtag"))

unfoldable pub hashtag_tag : {N : Type 0} → Text → Option (Value N)
unfolding hashtag_of is_empty all_chars is_alphanumeric
hashtag_tag token = hashtag_of (strip_prefix (bytes "#") token)

mention_parts : {N : Type 0} → Text × List Text → Option (Value N)
unfolding link_tag
mention_parts (name, host_part ∷ []) =
    let username = trim name in
    let host = trim host_part in
    if is_empty username
      || is_empty host
      || not (all_chars (λ c. is_alphanumeric c || c == 95 || c == 45 || c == 46) username)
      || not (all_chars (λ c. is_alphanumeric c || c == 45 || c == 46) host)
    then none
    else some (
        link_tag (bytes "https://" ++ (host ++ (bytes "/users/" ++ username)))
          (bytes "@" ++ (username ++ (bytes "@" ++ host))) (bytes "Mention"))
mention_parts (name, parts) = none

mention_of : {N : Type 0} → Option Text → Option (Value N)
unfolding mention_parts
mention_of none = none
mention_of (some without_prefix) = mention_parts (split 64 without_prefix)

unfoldable pub mention_tag : {N : Type 0} → Text → Option (Value N)
unfolding mention_of is_empty all_chars is_alphanumeric
mention_tag token = mention_of (strip_prefix (bytes "@") token)

seen_before : Text → List Text → Bool
seen_before key [] = false
seen_before key (k ∷ more) = text_eq k key || seen_before key more

module _ {N : Type 0} where
  -- The tag of a token with its key, if it is one.
  keyed : Text → Option (Value N) → Option (Value N) → Option (Text × Value N)
  keyed trimmed (some tag) mention = some (bytes "hashtag:" ++ trimmed, tag)
  keyed trimmed none (some tag) = some (bytes "mention:" ++ trimmed, tag)
  keyed trimmed none none = none

  token_tag : Text → Option (Text × Value N)
  unfolding keyed
  token_tag trimmed = keyed trimmed (hashtag_tag trimmed) (mention_tag trimmed)

  unfoldable pub tags_from : List Text → List Text → List (Value N)
  unfolding token_tag seen_before
  tags_from seen [] = []
  tags_from seen (token ∷ more) = elim (token_tag (trim_token token)) [
    | none ↦ tags_from seen more
    | some (key, tag) ↦
        let fresh = not (seen_before key seen) in
        let rest = tags_from (if fresh then key ∷ seen else seen) more in
        if fresh then tag ∷ rest else rest
  ]

  unfoldable pub activity_tags : Text → List (Value N)
  activity_tags content = tags_from [] (split_whitespace content)

texts_of : {N : Type 0} → List (Value N) → List Text
texts_of [] = []
texts_of (v ∷ vs) = elim (as_str (some v)) [ some t ↦ t ∷ texts_of vs | none ↦ texts_of vs ]

bool_or : {N : Type 0} → Option (Value N) → Bool
bool_or (some (Value.bool b)) = b
bool_or o = false

poll_object : {N : Type 0} → Bool → Option (List (Value N)) → Option (Bool × List Text)
poll_object multiple none = none
poll_object multiple (some options) = some (multiple, texts_of options)

poll_of : {N : Type 0} → Value N → Option (List (Value N)) → Option (Bool × List Text)
poll_of value (some options) = some (false, texts_of options)
poll_of value none =
    poll_object (bool_or (get (bytes "multiple") value)) (as_array (get (bytes "options") value))

module _ {F N : Type 0} (s : Services F N) where
  parsed_poll : Result Text (Value N) → Option (Bool × List Text)
  parsed_poll (err e) = none
  parsed_poll (ok value) = poll_of value (as_array (some value))

  unfoldable pub parse_poll_options : Text → Option (Bool × List Text)
  unfolding parsed_poll poll_of poll_object texts_of bool_or
  parse_poll_options value = parsed_poll (s.parse_json value)

module _ {C F N : Type 0} (x : Formats C F N) where
  unfoldable pub poll_option_values : List Text → Values N
  poll_option_values [] = Values.nil
  poll_option_values (option ∷ more) =
      Values.cons
        (Value.object (
          Members.member (bytes "name") (Value.string (trim option)) (
            Members.member (bytes "replies")
              (Value.object (
                Members.member (bytes "totalItems") (Value.number (x.from_i64 (pos 0)))
                  (Members.member (bytes "type") (Value.string (bytes "Collection")) Members.end)))
              (Members.member (bytes "type") (Value.string (bytes "Note")) Members.end))))
        (poll_option_values more)
