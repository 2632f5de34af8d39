-- ===== src/Html.antt =====
-- `sanitize_html` of core/src/utils.rs, with its helpers. A round of its loop is `sanitize_round`; the
-- variables of the loop are a record, in which the stack of the open tags is the list of them, the
-- last one pushed first.
pub mod Pieces
pub mod Safety
pub mod Rounds
mod Tests
use dais.Base.{
  ◌≡◌, refl, ◌⊎◌, inl, inr, ℕ, zero, suc, ◌+◌, Text, bytes, List, [], ◌∷◌, ◌++◌, Option, none, some,
  Bool, true, false, ◌&&◌, ◌||◌, not, ◌==◌, text_eq, if◌then◌else◌, length, drop, starts_with,
  strip_prefix, to_ascii_lowercase, cut_at, find_lower, trim_start_matches, take_until, replace,
  trim_start, trim, is_ascii_whitespace,
}

unfoldable pub html_tag_name : Text → Text
html_tag_name tag =
    take_until (λ ch. is_ascii_whitespace ch || ch == 62 || ch == 47)
      (trim_start (trim_start_matches 47 (trim_start_matches 60 tag)))

unfoldable pub tag_is_closing : Text → Bool
tag_is_closing tag = starts_with (trim_start (trim_start_matches 60 tag)) (bytes "/")

unfoldable pub one_of : List Text → Text → Bool
one_of [] t = false
one_of (s ∷ rest) t = text_eq t s || one_of rest t

abbrev pub allowed_tags : List Text
allowed_tags =
    bytes "p"
    ∷ bytes "br"
    ∷ bytes "strong"
    ∷ bytes "b"
    ∷ bytes "em"
    ∷ bytes "i"
    ∷ bytes "code"
    ∷ bytes "pre"
    ∷ bytes "blockquote"
    ∷ bytes "ul"
    ∷ bytes "ol"
    ∷ bytes "li"
    ∷ bytes "span"
    ∷ bytes "a"
    ∷ []

unfoldable pub allowed_html_tag : Text → Bool
allowed_html_tag tag = one_of allowed_tags tag

abbrev pub blocked_tags : List Text
blocked_tags = bytes "script" ∷ bytes "style" ∷ bytes "iframe" ∷ bytes "object" ∷ bytes "embed" ∷ []

-- The front of a cut, for `&quoted[..end]`.
front : Option (Text × Text) → Option Text
front none = none
front (some (a, b)) = some a

-- The value of the attribute behind its `=`, quoted in one of two ways or bare.
unfoldable pub attribute_value : Text → Option Text
unfolding front
attribute_value after = elim (strip_prefix (bytes "\"") after) [
  | some quoted ↦ front (cut_at 34 quoted)
  | none ↦ elim (strip_prefix (bytes "'") after) [
    | some quoted ↦ front (cut_at 39 quoted)
    | none ↦ some (take_until (λ ch. is_ascii_whitespace ch || ch == 62) after)
  ]
]

-- The three schemes that a link may have.
unfoldable pub is_safe_scheme : Text → Bool
is_safe_scheme value =
    let lower_value = to_ascii_lowercase value in
    starts_with lower_value (bytes "http://")
    || starts_with lower_value (bytes "https://")
    || starts_with lower_value (bytes "mailto:")

unfoldable pub checked_href : Option Text → Option Text
checked_href none = none
checked_href (some value) = if is_safe_scheme (trim value) then some (trim value) else none

-- What follows the word `href` in the tag.
href_value : Option Text → Option Text
href_value none = none
href_value (some after) = attribute_value (trim_start after)

after_href : Option Text → Option Text
unfolding href_value
after_href none = none
after_href (some found) = href_value (strip_prefix (bytes "=") (trim_start (drop 4 found)))

unfoldable pub safe_href : Text → Option Text
unfolding after_href
safe_href tag = checked_href (after_href (find_lower (bytes "href") tag))

unfoldable pub escape_html_attr : Text → Text
escape_html_attr value =
    replace 62 (bytes "&gt;")
      (replace 60 (bytes "&lt;") (replace 34 (bytes "&quot;") (replace 38 (bytes "&amp;") value)))

-- The variables of the loop.
pub record Sanitizer : Type 0 where
  pub output : Text
  pub rest : Text
  pub drop_until : Option Text
  pub open_tags : List Text

-- `rposition` of a tag, and the stack cut there.
unfoldable pub close_tag : Text → List Text → Option (List Text)
close_tag name [] = none
close_tag name (t ∷ tags) =
    let more = close_tag name tags in if text_eq t name then some tags else more

closed : Sanitizer → Text → Option (List Text) → Sanitizer
closed st name none = st
closed st name (some tags) = record st {
  output = st.output ++ (bytes "</" ++ name ++ bytes ">");
  open_tags = tags;
}

linked : Sanitizer → Text → Option Text → Sanitizer
linked st name none = st
linked st name (some href) = record st {
  output = st.output ++ (bytes "<a href=\"" ++ escape_html_attr href ++ bytes "\">");
  open_tags = name ∷ st.open_tags;
}

-- A tag outside a dropped element.
unfoldable pub on_tag : Sanitizer → Text → Text → Sanitizer
unfolding closed linked
on_tag st tag lower_name =
    if one_of blocked_tags lower_name
    then (if tag_is_closing tag then st else record st { drop_until = some lower_name })
    else if tag_is_closing tag
    then (if allowed_html_tag lower_name
        then closed st lower_name (close_tag lower_name st.open_tags)
        else st)
    else if text_eq lower_name (bytes "a")
    then linked st lower_name (safe_href tag)
    else if allowed_html_tag lower_name
    then record st {
      output = st.output ++ (bytes "<" ++ lower_name ++ bytes ">");
      open_tags = lower_name ∷ st.open_tags;
    }
    else st

-- A tag, inside a dropped element or not.
unfoldable pub read_tag : Sanitizer → Text → Option Text → Sanitizer
read_tag st tag none = on_tag st tag (to_ascii_lowercase (html_tag_name tag))
read_tag st tag (some blocked) =
    if tag_is_closing tag && text_eq (to_ascii_lowercase (html_tag_name tag)) blocked
    then record st { drop_until = none }
    else st

-- Inside a dropped element: the text from its closing tag on.
unfoldable pub skip_dropped : Option Text → Text → Option Text
skip_dropped none rest = some rest
skip_dropped (some blocked) rest = find_lower (bytes "</" ++ blocked) rest

-- A round goes on, or breaks.
pub data Round : Type 0 where
  continue : Sanitizer → Round
  break : Sanitizer → Round

pub Round-cases :
    (r : Round) → ((st : Sanitizer) × (r ≡ continue st)) ⊎ ((st : Sanitizer) × (r ≡ break st))
Round-cases (continue st) = inl (st, refl)
Round-cases (break st) = inr (st, refl)

tag_end : Sanitizer → Text → Option (Text × Text) → Round
tag_end st behind none = continue (record st { output = st.output ++ bytes "&lt;"; rest = behind })
tag_end st behind (some (inside, rest)) =
    continue (read_tag (record st { rest = rest }) (60 ∷ (inside ++ 62 ∷ [])) st.drop_until)

tag_start : Sanitizer → Option (Text × Text) → Round
unfolding tag_end
tag_start st none = break st
tag_start st (some (text, behind)) =
    tag_end (record st { output = st.output ++ text }) behind (cut_at 62 behind)

round_from : Sanitizer → Option Text → Round
unfolding tag_start
round_from st none = break (record st { rest = [] })
round_from st (some rest) = tag_start (record st { rest = rest }) (cut_at 60 rest)

unfoldable pub sanitize_round : Sanitizer → Round
unfolding round_from
sanitize_round st = round_from st (skip_dropped st.drop_until st.rest)

unfoldable pub sanitize_loop : ℕ → Sanitizer → Option Sanitizer
sanitize_loop zero st = none
sanitize_loop (suc fuel) st = elim (sanitize_round st) [
  | continue st' ↦ sanitize_loop fuel st'
  | break st' ↦ some st'
]

unfoldable pub finish : Option Sanitizer → Text
finish none = []
finish (some st) = elim (st.drop_until) [ none ↦ st.output ++ st.rest | some blocked ↦ st.output ]

abbrev pub start_of : Text → Sanitizer
start_of html = record { output = []; rest = html; drop_until = none; open_tags = [] }

-- Each round but the last takes a byte off the text, so one round more than it has bytes is enough:
-- the case `none` of `finish` does not arise (`sanitize_loop-Returns`).
unfoldable pub sanitize_html : Text → Text
sanitize_html html = finish (sanitize_loop (suc (length html)) (start_of html))
