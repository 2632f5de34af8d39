-- ===== src/Html/Rounds.antt =====
-- The loop of `sanitize_html` (core/src/utils.rs) ends: each round that goes on leaves a shorter text.
use mathlib.Core.Path.{subst}
use dais.Base.{
  ℕ, zero, suc, ◌<◌, ◌≤◌, Text, List, [], ◌∷◌, ◌++◌, Option, none, some, ◌≡◌, ◌≢◌, refl, ap, arith,
  cut_at, find_lower, starts_with, to_ascii_lowercase, Bool-cases, Option-cases, inl, inr, length,
  length-append, some-injective,
}
use dais.Html.{
  safe_href, Sanitizer, close_tag, closed, linked, on_tag, read_tag, skip_dropped, Round,
  Round-cases, continue, break, tag_end, tag_start, round_from, sanitize_round, sanitize_loop,
}
use dais.Html.Pieces.{cut_at-Lacks}

cut_at_shrinks : (mark : ℕ) (t a b : Text) → cut_at mark t ≡ some (a, b) → length b < length t
cut_at_shrinks mark t a b h =
    omega (arith, ap (λ u. length u) (cut_at-Lacks mark t a b h).1, length-append a (mark ∷ b))

find_lower-le :
    (pattern t found : Text) → find_lower pattern t ≡ some found → length found ≤ length t
unfolding find_lower
find_lower-le pattern [] found h = elim (Bool-cases (starts_with [] pattern)) [
  | inl e ↦
      let same : ◌≡◌ {A = Option Text} (some []) (some found) = (rw e at h) in
      subst (λ u. length u ≤ 0) (some-injective same) (omega arith)
  | inr e ↦ let bad = (rw e at h) in cc (bad)
]
find_lower-le pattern (c ∷ t) found h =
    elim (Bool-cases (starts_with (to_ascii_lowercase (c ∷ t)) pattern)) [
      | inl e ↦
          let same : ◌≡◌ {A = Option Text} (some (c ∷ t)) (some found) = (rw e at h) in
          subst (λ u. length u ≤ suc (length t)) (some-injective same) (omega arith)
      | inr e ↦
          let later : find_lower pattern t ≡ some found = (rw e at h) in
          omega (arith, find_lower-le pattern t found later)
    ]

skip_dropped-le :
    (o : Option Text) (rest found : Text)
    → skip_dropped o rest ≡ some found
    → length found ≤ length rest
unfolding skip_dropped
skip_dropped-le none rest found h =
    subst (λ u. length u ≤ length rest) (some-injective h) (omega arith)
skip_dropped-le (some blocked) rest found h = find_lower-le _ rest found h

linked_rest : (st : Sanitizer) (name : Text) (o : Option Text) → (linked st name o).rest ≡ st.rest
unfolding linked
linked_rest st name none = refl
linked_rest st name (some href) = refl

closed_rest :
    (st : Sanitizer) (name : Text) (o : Option (List Text)) → (closed st name o).rest ≡ st.rest
unfolding closed
closed_rest st name none = refl
closed_rest st name (some tags) = refl

on_tag_rest : (st : Sanitizer) (tag name : Text) → (on_tag st tag name).rest ≡ st.rest
unfolding on_tag
on_tag_rest st tag name =
    ground (
      arith,
      linked_rest st name (safe_href tag),
      closed_rest st name (close_tag name st.open_tags),
    )

read_tag_rest : (st : Sanitizer) (tag : Text) (o : Option Text) → (read_tag st tag o).rest ≡ st.rest
unfolding read_tag
read_tag_rest st tag none = on_tag_rest st tag _
read_tag_rest st tag (some blocked) = ground arith

-- A round that goes on leaves a shorter text.
abbrev Shorter : ℕ → Round → Type 0
Shorter n (continue st) = length st.rest < n
Shorter n (break st) = Unit

tag_end-Shorter :
    (n : ℕ) (st : Sanitizer) (behind : Text)
    → length behind < n
    → Shorter n (tag_end st behind (cut_at 62 behind))
unfolding tag_end
tag_end-Shorter n st behind h = elim (Option-cases (cut_at 62 behind)) [
  | inl e ↦ rw e h
  | inr ((inside, rest), e) ↦ rw e (
      omega (
        arith,
        ap (λ u. length u)
            (read_tag_rest (record st { rest = rest }) (60 ∷ (inside ++ 62 ∷ [])) st.drop_until),
        cut_at_shrinks 62 behind inside rest e,
      ))
]

round_from-Shorter :
    (n : ℕ) (st : Sanitizer) (rest : Text) → length rest ≤ n → Shorter n (round_from st (some rest))
unfolding round_from tag_start
round_from-Shorter n st rest h = elim (Option-cases (cut_at 60 rest)) [
  | inl e ↦ rw e tt
  | inr ((text, behind), e) ↦ rw e (
      tag_end-Shorter n (record st { output = st.output ++ text; rest = rest }) behind
        (omega (arith, cut_at_shrinks 60 rest text behind e)))
]

sanitize_round-Shorter : (st : Sanitizer) → Shorter (length st.rest) (sanitize_round st)
unfolding sanitize_round
sanitize_round-Shorter st = elim (Option-cases (skip_dropped st.drop_until st.rest)) [
  | inl e ↦ rw (e, round_from) tt
  | inr (rest, e) ↦
      rw e
        (round_from-Shorter (length st.rest) st rest (skip_dropped-le st.drop_until st.rest rest e))
]

-- The loop of `sanitize_html` ends within one round more than the text has bytes.
pub sanitize_loop-Returns :
    (fuel : ℕ) (st : Sanitizer) → length st.rest < fuel → sanitize_loop fuel st ≢ none
unfolding sanitize_loop
sanitize_loop-Returns zero st h = absurd (omega arith)
sanitize_loop-Returns (suc fuel) st h = elim (Round-cases (sanitize_round st)) [
  | inl (st', e) ↦
      let shorter = subst (Shorter (length st.rest)) e (sanitize_round-Shorter st) in
      rw (e, sanitize_loop) (sanitize_loop-Returns fuel st' (omega arith))
  | inr (st', e) ↦ rw (e, sanitize_loop) (λ k. cc (k))
]
