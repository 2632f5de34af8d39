-- ===== src/Activitypub/Signatures/Quotes.antt =====
-- Quoted texts are trimmed and unquoted (for the header of core/src/activitypub/signatures.rs).
use dais.Base.{
  ℕ, zero, suc, ◌<◌, ◌≤◌, Text, [], ◌∷◌, ◌++◌, none, some, true, false, ◌≡◌, ◌≢◌, refl, ◌∙◌, arith,
  length, All, Lacks, ◌==◌, if◌then◌else◌, skip_white, skip_whites, trim_start, trim_end, trim,
  is_blank, is_nil, trim_start_matches, trim_end_matches, trim_matches, cut_at, Bool-cases, inl,
  inr,
}

-- A printable character of ASCII.
abbrev pub Printable : ℕ → Type 0
Printable c = (32 ≤ c) × (c < 127)

-- One that stands in a field: no quote and no comma.
abbrev pub InField : ℕ → Type 0
InField c = (32 ≤ c) × (c < 127) × (c ≢ 34) × (c ≢ 44)

skip_white-Printable :
    (c : ℕ) (t : Text) → Printable c → skip_white (c ∷ t) ≡ (if c == 32 then some t else none)
unfolding skip_white
skip_white-Printable c [] (a, b) = ground arith
skip_white-Printable c (d ∷ []) (a, b) = ground arith
skip_white-Printable c (d ∷ e ∷ t) (a, b) = ground arith

pub skip_white-space :
    (c : ℕ) (t : Text) → Printable c → (c == 32) ≡ true → skip_white (c ∷ t) ≡ some t
skip_white-space c t p e = skip_white-Printable c t p ∙ (rw e refl)

pub skip_white-visible :
    (c : ℕ) (t : Text) → Printable c → (c == 32) ≡ false → skip_white (c ∷ t) ≡ none
skip_white-visible c t p e = skip_white-Printable c t p ∙ (rw e refl)

-- A text that ends with a quote.
abbrev pub quoted : Text → Text
quoted u = u ++ 34 ∷ []

skip_whites-quoted :
    (fuel : ℕ) (u : Text)
    → All Printable u
    → (c : ℕ) × (t : Text) × (skip_whites fuel (quoted u) ≡ c ∷ t)
unfolding skip_whites
skip_whites-quoted zero [] p = (34, [], refl)
skip_whites-quoted zero (c ∷ u) p = (c, quoted u, refl)
skip_whites-quoted (suc fuel) [] p =
    (34, [], rw (skip_white-visible 34 [] (omega arith) refl, skip_whites) refl)
skip_whites-quoted (suc fuel) (c ∷ u) (p, ps) = elim (Bool-cases (c == 32)) [
  | inl e ↦ rw (skip_white-space c (quoted u) p e, skip_whites) (skip_whites-quoted fuel u ps)
  | inr e ↦ (c, quoted u, rw (skip_white-visible c (quoted u) p e, skip_whites) refl)
]

is_blank-quoted : (u : Text) → All Printable u → is_blank (quoted u) ≡ false
unfolding is_blank trim_start is_nil
is_blank-quoted u p =
    let (c, t, e) = skip_whites-quoted (length (quoted u)) u p in rw (e, is_nil) refl

trim_start-visible :
    (c : ℕ) (t : Text) → Printable c → (c == 32) ≡ false → trim_start (c ∷ t) ≡ c ∷ t
unfolding trim_start skip_whites
trim_start-visible c t p ne = rw (skip_white-visible c t p ne, skip_whites) refl

trim_end-quoted : (u : Text) → All Printable u → trim_end (quoted u) ≡ quoted u
unfolding trim_end
trim_end-quoted [] p = rw (is_blank-quoted [] tt, trim_end) refl
trim_end-quoted (c ∷ u) (p, ps) = rw (is_blank-quoted (c ∷ u) (p, ps), trim_end-quoted u ps) refl

-- A text that begins visibly and ends with a quote is not trimmed.
pub trim-quoted :
    (c : ℕ) (u : Text)
    → Printable c
    → (c == 32) ≡ false
    → All Printable u
    → trim (c ∷ quoted u) ≡ c ∷ quoted u
unfolding trim
trim-quoted c u p ne ps =
    rw (trim_start-visible c (quoted u) p ne) (trim_end-quoted (c ∷ u) (p, ps))

trim_end_matches-quoted : (v : Text) → Lacks 34 v → trim_end_matches 34 (quoted v) ≡ v
unfolding trim_end_matches
trim_end_matches-quoted [] h = refl
trim_end_matches-quoted (c ∷ []) (h, hs) = rw h refl
trim_end_matches-quoted (c ∷ d ∷ v) (h, hs) =
    rw (trim_end_matches-quoted (d ∷ v) hs, trim_end_matches) refl

trim_start_matches-Lacks : (v : Text) → Lacks 34 v → trim_start_matches 34 v ≡ v
unfolding trim_start_matches
trim_start_matches-Lacks [] h = refl
trim_start_matches-Lacks (c ∷ v) (h, hs) = rw h refl

-- The quotes are taken off a value.
pub trim_matches-quoted : (v : Text) → Lacks 34 v → trim_matches 34 (34 ∷ quoted v) ≡ v
unfolding trim_matches trim_start_matches trim_end_matches
trim_matches-quoted [] h = refl
trim_matches-quoted (c ∷ v) (h, hs) = rw h (trim_end_matches-quoted (c ∷ v) (h, hs))

pub cut_at-append : (m : ℕ) (u t : Text) → Lacks m u → cut_at m (u ++ m ∷ t) ≡ some (u, t)
unfolding cut_at
cut_at-append m [] t h = ground arith
cut_at-append m (c ∷ u) t (h, hs) = rw (h, cut_at-append m u t hs) refl
