-- ===== src/Html/Pieces.antt =====
-- What `sanitize_html` (core/src/utils.rs) may write: texts without `<`, tags of the allowed names,
-- and links to safe schemes.
use mathlib.Core.Path.{subst}
use dais.Base.{
  some-injective, find_lower, trim, ℕ, Text, bytes, List, [], ◌∷◌, ◌++◌, append_assoc, append-nil,
  Option, none, some, true, false, ◌≡◌, refl, sym, ap, All, All-append, Lacks, replace, cut_at,
  ◌==◌, ==_iff, Bool-cases, Option-cases, inl, inr,
}
use dais.Html.{
  allowed_html_tag, is_safe_scheme, escape_html_attr, safe_href, checked_href, after_href,
}

pub data Piece : Type 0 where
  plain : Text → Piece
  opening : Text → Piece
  closing : Text → Piece
  link : Text → Piece

unfoldable pub render_piece : Piece → Text
render_piece (plain t) = t
render_piece (opening name) = bytes "<" ++ name ++ bytes ">"
render_piece (closing name) = bytes "</" ++ name ++ bytes ">"
render_piece (link href) = bytes "<a href=\"" ++ escape_html_attr href ++ bytes "\">"

unfoldable pub render : List Piece → Text
render [] = []
render (p ∷ ps) = render_piece p ++ render ps

-- A link has a safe scheme, and its attribute cannot be left by a quote or a bracket.
abbrev pub IsSafePiece : Piece → Type 0
IsSafePiece (plain t) = Lacks 60 t
IsSafePiece (opening name) = allowed_html_tag name ≡ true
IsSafePiece (closing name) = allowed_html_tag name ≡ true
IsSafePiece (link href) =
    (is_safe_scheme href ≡ true)
    × Lacks 34 (escape_html_attr href)
    × Lacks 60 (escape_html_attr href)
    × Lacks 62 (escape_html_attr href)

-- A text that is rendered of safe pieces.
abbrev pub IsSafe : Text → Type 0
IsSafe t = (ps : List Piece) × All IsSafePiece ps × (t ≡ render ps)

render-append : (ps qs : List Piece) → render (ps ++ qs) ≡ render ps ++ render qs
unfolding render
render-append [] qs = refl
render-append (p ∷ ps) qs = rw (render-append ps qs, append_assoc)

pub IsSafe-append : (s t : Text) → IsSafe s → IsSafe t → IsSafe (s ++ t)
IsSafe-append s t (ps, safe, e) (qs, safe', e') =
    (ps ++ qs, All-append IsSafePiece ps qs safe safe', cc (e, e', render-append ps qs))

pub one_piece-IsSafe : (p : Piece) → IsSafePiece p → IsSafe (render_piece p)
unfolding render
one_piece-IsSafe p h = (p ∷ [], (h, tt), sym (append-nil (render_piece p)))

pub plain-IsSafe : (t : Text) → Lacks 60 t → IsSafe t
unfolding render_piece
plain-IsSafe t h = one_piece-IsSafe (plain t) h

-- The two parts of a cut, and a text that is not cut.
pub cut_at-Lacks :
    (mark : ℕ) (t a b : Text) → cut_at mark t ≡ some (a, b) → Lacks mark a × (t ≡ a ++ mark ∷ b)
unfolding cut_at
cut_at-Lacks mark [] a b h = cc
cut_at-Lacks mark (c ∷ t) a b h = elim (Bool-cases (c == mark)) [
  | inl here ↦
      let same : ◌≡◌ {A = Option (Text × Text)} (some ([], t)) (some (a, b)) = (rw here at h) in
      subst (λ r. Lacks mark r.0 × (c ∷ t ≡ r.0 ++ mark ∷ r.1)) (some-injective same)
        (tt, ap (λ d. d ∷ t) ((==_iff c mark).0 here))
  | inr other ↦ elim (Option-cases (cut_at mark t)) [
    | inl e ↦ let bad = (rw (other, e) at h) in cc (bad)
    | inr ((front, back), e) ↦
        let same : ◌≡◌ {A = Option (Text × Text)} (some (c ∷ front, back)) (some (a, b)) =
          (rw (other, e) at h) in
        let (lacks, whole) = cut_at-Lacks mark t front back e in
        subst (λ r. Lacks mark r.0 × (c ∷ t ≡ r.0 ++ mark ∷ r.1)) (some-injective same)
          ((other, lacks), ap (λ d. c ∷ d) whole)
  ]
]

pub cut_at-none : (mark : ℕ) (t : Text) → cut_at mark t ≡ none → Lacks mark t
unfolding cut_at
cut_at-none mark [] h = tt
cut_at-none mark (c ∷ t) h = elim (Bool-cases (c == mark)) [
  | inl here ↦ let bad = (rw here at h) in cc (bad)
  | inr other ↦ elim (Option-cases (cut_at mark t)) [
    | inl e ↦ (other, cut_at-none mark t e)
    | inr ((front, back), e) ↦ let bad = (rw (other, e) at h) in cc (bad)
  ]
]

replace-Lacks_same : (mark : ℕ) (by t : Text) → Lacks mark by → Lacks mark (replace mark by t)
unfolding replace
replace-Lacks_same mark by [] h = tt
replace-Lacks_same mark by (c ∷ t) h = elim (Bool-cases (c == mark)) [
  | inl here ↦
      rw here (All-append (λ d. (d == mark) ≡ false) by _ h (replace-Lacks_same mark by t h))
  | inr other ↦ rw other (other, replace-Lacks_same mark by t h)
]

replace-Lacks : (c mark : ℕ) (by t : Text) → Lacks c by → Lacks c t → Lacks c (replace mark by t)
unfolding replace
replace-Lacks c mark by [] h k = tt
replace-Lacks c mark by (d ∷ t) h k = elim (Bool-cases (d == mark)) [
  | inl here ↦ rw here (All-append (λ e. (e == c) ≡ false) by _ h (replace-Lacks c mark by t h k.1))
  | inr other ↦ rw other (k.0, replace-Lacks c mark by t h k.1)
]

-- An escaped attribute has no quote and no bracket.
pub escape_html_attr-Lacks :
    (value : Text)
    → Lacks 34 (escape_html_attr value)
      × Lacks 60 (escape_html_attr value)
      × Lacks 62 (escape_html_attr value)
unfolding escape_html_attr bytes
escape_html_attr-Lacks value =
    let r₃₄ =
      replace-Lacks_same 34 (bytes "&quot;") (replace 38 (bytes "&amp;") value)
        (refl, (refl, (refl, (refl, (refl, (refl, tt)))))) in
    let r₆₀ =
      replace-Lacks_same 60 (bytes "&lt;")
        (replace 34 (bytes "&quot;") (replace 38 (bytes "&amp;") value))
        (refl, (refl, (refl, (refl, tt)))) in
    (
      replace-Lacks 34 62 (bytes "&gt;") _ (refl, (refl, (refl, (refl, tt))))
          (replace-Lacks 34 60 (bytes "&lt;") _ (refl, (refl, (refl, (refl, tt)))) r₃₄),
      replace-Lacks 60 62 (bytes "&gt;") _ (refl, (refl, (refl, (refl, tt)))) r₆₀,
      replace-Lacks_same 62 (bytes "&gt;") _ (refl, (refl, (refl, (refl, tt)))),
    )

-- `safe_href` only answers with a safe scheme.
pub safe_href_sound : (tag href : Text) → safe_href tag ≡ some href → is_safe_scheme href ≡ true
unfolding safe_href checked_href
safe_href_sound tag href h = elim (Option-cases (after_href (find_lower (bytes "href") tag))) [
  | inl e ↦ let bad = (rw e at h) in cc (bad)
  | inr (value, e) ↦ elim (Bool-cases (is_safe_scheme (trim value))) [
    | inl safe ↦
        let same : ◌≡◌ {A = Option Text} (some (trim value)) (some href) = (rw (e, safe) at h) in
        subst (λ v. is_safe_scheme v ≡ true) (some-injective same) safe
    | inr unsafe ↦ let bad = (rw (e, unsafe) at h) in cc (bad)
  ]
]
