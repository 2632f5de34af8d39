-- ===== src/Html/Safety.antt =====
-- Every round of `sanitize_html` (core/src/utils.rs) adds safe pieces to the output.
use mathlib.Core.Path.{subst}
use dais.Base.{
  ◌&&◌, to_ascii_lowercase, ℕ, zero, suc, Text, bytes, List, [], ◌++◌, Option, none, some, Bool,
  true, ◌≡◌, refl, Lacks, cut_at, text_eq, Bool-cases, Option-cases, inl, inr, length,
}
use dais.Html.{
  html_tag_name, Round-cases, allowed_html_tag, tag_is_closing, one_of, blocked_tags, safe_href,
  Sanitizer, close_tag, closed, linked, on_tag, read_tag, skip_dropped, Round, continue, break,
  tag_end, tag_start, round_from, sanitize_round, sanitize_loop, finish, start_of, sanitize_html,
}
use dais.Html.Pieces.{
  opening, closing, link, render_piece, IsSafe, IsSafe-append, one_piece-IsSafe, plain-IsSafe,
  cut_at-Lacks, cut_at-none, escape_html_attr-Lacks, safe_href_sound,
}

-- The output so far is safe.
abbrev Good : Sanitizer → Type 0
Good st = IsSafe st.output

closed-Good :
    (st : Sanitizer) (name : Text) (o : Option (List Text))
    → allowed_html_tag name ≡ true
    → Good st
    → Good (closed st name o)
unfolding closed render_piece
closed-Good st name none allowed h = h
closed-Good st name (some tags) allowed h =
    IsSafe-append _ _ h (one_piece-IsSafe (closing name) allowed)

linked-Good : (st : Sanitizer) (name tag : Text) → Good st → Good (linked st name (safe_href tag))
unfolding linked render_piece
linked-Good st name tag h = elim (Option-cases (safe_href tag)) [
  | inl e ↦ rw e h
  | inr (href, e) ↦ rw e (
      IsSafe-append _ _ h (
        one_piece-IsSafe (link href) (
          safe_href_sound tag href e,
          (escape_html_attr-Lacks href).0,
          (escape_html_attr-Lacks href).1,
          (escape_html_attr-Lacks href).2,
        )))
]

on_tag-Good : (st : Sanitizer) (tag name : Text) → Good st → Good (on_tag st tag name)
unfolding on_tag render_piece
on_tag-Good st tag name h = elim (Bool-cases (one_of blocked_tags name)) [
  | inl blocked ↦ elim (Bool-cases (tag_is_closing tag)) [
    | inl c ↦ rw (blocked, c) h
    | inr o ↦ rw (blocked, o) h
  ]
  | inr kept ↦ elim (Bool-cases (tag_is_closing tag)) [
    | inl c ↦ elim (Bool-cases (allowed_html_tag name)) [
      | inl allowed ↦
          rw (kept, c, allowed) (closed-Good st name (close_tag name st.open_tags) allowed h)
      | inr unknown ↦ rw (kept, c, unknown) h
    ]
    | inr o ↦ elim (Bool-cases (text_eq name (bytes "a"))) [
      | inl a ↦ rw (kept, o, a) (linked-Good st name tag h)
      | inr b ↦ elim (Bool-cases (allowed_html_tag name)) [
        | inl allowed ↦
            rw (kept, o, b, allowed) (IsSafe-append _ _ h (one_piece-IsSafe (opening name) allowed))
        | inr unknown ↦ rw (kept, o, b, unknown) h
      ]
    ]
  ]
]

ends : Text → Text → Bool
ends tag blocked = tag_is_closing tag && text_eq (to_ascii_lowercase (html_tag_name tag)) blocked

read_tag-Good : (st : Sanitizer) (tag : Text) (o : Option Text) → Good st → Good (read_tag st tag o)
unfolding read_tag ends
read_tag-Good st tag none h = on_tag-Good st tag _ h
read_tag-Good st tag (some blocked) h = elim (Bool-cases (ends tag blocked)) [
  | inl e ↦ rw e h
  | inr e ↦ rw e h
]

-- A loop that breaks leaves a rest without tags.
abbrev GoodRound : Round → Type 0
GoodRound (continue st) = Good st
GoodRound (break st) = Good st × Lacks 60 st.rest

tag_end-Good :
    (st : Sanitizer) (behind : Text) (o : Option (Text × Text))
    → Good st
    → GoodRound (tag_end st behind o)
unfolding tag_end bytes
tag_end-Good st behind none h =
    IsSafe-append _ _ h (plain-IsSafe (bytes "&lt;") (refl, (refl, (refl, (refl, tt)))))
tag_end-Good st behind (some (inside, rest)) h = read_tag-Good _ _ st.drop_until h

round_from-Good : (st : Sanitizer) (o : Option Text) → Good st → GoodRound (round_from st o)
unfolding round_from tag_start
round_from-Good st none h = (h, tt)
round_from-Good st (some rest) h = elim (Option-cases (cut_at 60 rest)) [
  | inl e ↦ rw e (h, cut_at-none 60 rest e)
  | inr ((text, behind), e) ↦ rw e (
      tag_end-Good (record st { output = st.output ++ text; rest = rest }) behind (cut_at 62 behind)
        (IsSafe-append _ _ h (plain-IsSafe text (cut_at-Lacks 60 rest text behind e).0)))
]

-- The states in which the loop may end.
abbrev GoodEnd : Option Sanitizer → Type 0
GoodEnd none = Unit
GoodEnd (some st) = Good st × Lacks 60 st.rest

sanitize_round-Good : (st : Sanitizer) → Good st → GoodRound (sanitize_round st)
unfolding sanitize_round
sanitize_round-Good st h = round_from-Good st (skip_dropped st.drop_until st.rest) h

sanitize_loop-Good : (fuel : ℕ) (st : Sanitizer) → Good st → GoodEnd (sanitize_loop fuel st)
unfolding sanitize_loop
sanitize_loop-Good zero st h = tt
sanitize_loop-Good (suc fuel) st h = elim (Round-cases (sanitize_round st)) [
  | inl (st', e) ↦
      let good = subst GoodRound e (sanitize_round-Good st h) in
      rw (e, GoodEnd) (sanitize_loop-Good fuel st' good)
  | inr (st', e) ↦ rw (e, GoodEnd) (subst GoodRound e (sanitize_round-Good st h))
]

finish-IsSafe : (o : Option Sanitizer) → GoodEnd o → IsSafe (finish o)
unfolding finish
finish-IsSafe none h = plain-IsSafe [] tt
finish-IsSafe (some st) h = elim (Option-cases st.drop_until) [
  | inl e ↦ rw e (IsSafe-append _ _ h.0 (plain-IsSafe st.rest h.1))
  | inr (blocked, e) ↦ rw e h.0
]

-- Whatever the text, `sanitize_html` writes safe pieces only: texts without `<`, tags of the allowed
-- names without attributes, and links to safe schemes with an escaped address.
pub sanitize_html-IsSafe : (html : Text) → IsSafe (sanitize_html html)
unfolding sanitize_html
sanitize_html-IsSafe html =
    finish-IsSafe _ (sanitize_loop-Good (suc (length html)) (start_of html) (plain-IsSafe [] tt))
