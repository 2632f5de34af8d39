-- ===== src/Base/Scan.antt =====
-- Searching, splitting and replacing in a text, by the methods of `str` that the core library calls.
use Prim.Native.Nat.{ℕ, zero, suc, ◌+◌, ◌/◌, ◌%◌}
use mathlib.Core.Bool.{Bool, true, false, ◌&&◌, ◌||◌}
use mathlib.Core.List.{List, [], ◌∷◌, ◌++◌}
use mathlib.Core.Option.{Option, none, some}
use dais.Base.Tests.{◌==◌, leb, if◌then◌else◌}
use dais.Base.Lists.{All}
use dais.Base.Texts.{Text}
use mathlib.Core.Path.{◌≡◌}

-- `str::starts_with`
unfoldable pub starts_with : Text → Text → Bool
starts_with s [] = true
starts_with [] (p ∷ pattern) = false
starts_with (c ∷ s) (p ∷ pattern) = (c == p) && starts_with s pattern

-- `str::contains`
unfoldable pub contains : Text → Text → Bool
unfolding starts_with
contains [] pattern = starts_with [] pattern
contains (c ∷ s) pattern = starts_with (c ∷ s) pattern || contains s pattern

-- `str::strip_prefix`
unfoldable pub strip_prefix : Text → Text → Option Text
strip_prefix [] t = some t
strip_prefix (c ∷ prefix) [] = none
strip_prefix (c ∷ prefix) (d ∷ t) = if d == c then strip_prefix prefix t else none

-- `to_ascii_lowercase`, on a byte and on a text
abbrev pub lower_byte : ℕ → ℕ
lower_byte c = if leb 65 c && leb c 90 then c + 32 else c

unfoldable pub to_ascii_lowercase : Text → Text
to_ascii_lowercase [] = []
to_ascii_lowercase (c ∷ t) = lower_byte c ∷ to_ascii_lowercase t

-- `find` of a character: what stands before it, and what stands behind it.
before : ℕ → Option (Text × Text) → Option (Text × Text)
before c none = none
before c (some (front, back)) = some (c ∷ front, back)

unfoldable pub cut_at : ℕ → Text → Option (Text × Text)
unfolding before
cut_at mark [] = none
cut_at mark (c ∷ t) = let rest = cut_at mark t in if c == mark then some ([], t) else before c rest

-- `find` of a pattern in the text in lower case: the text from there on.
unfoldable pub find_lower : Text → Text → Option Text
find_lower pattern [] = if starts_with [] pattern then some [] else none
find_lower pattern (c ∷ t) =
    let rest = find_lower pattern t in
    if starts_with (to_ascii_lowercase (c ∷ t)) pattern then some (c ∷ t) else rest

-- `trim_start_matches` of a character
unfoldable pub trim_start_matches : ℕ → Text → Text
trim_start_matches mark [] = []
trim_start_matches mark (c ∷ t) =
    let rest = trim_start_matches mark t in if c == mark then rest else c ∷ t

-- `trim_end_matches` of a character
unfoldable pub trim_end_matches : ℕ → Text → Text
trim_end_matches mark [] = []
trim_end_matches mark (c ∷ t) = elim (trim_end_matches mark t) [
  | [] ↦ if c == mark then [] else c ∷ []
  | d ∷ rest ↦ c ∷ d ∷ rest
]

-- The front of a text up to the first character of a kind.
unfoldable pub take_until : (ℕ → Bool) → Text → Text
take_until stop [] = []
take_until stop (c ∷ t) = let rest = take_until stop t in if stop c then [] else c ∷ rest

-- `char::is_ascii_whitespace`
abbrev pub is_ascii_whitespace : ℕ → Bool
is_ascii_whitespace c = c == 9 || c == 10 || c == 12 || c == 13 || c == 32

-- `replace` of a character by a text
unfoldable pub replace : ℕ → Text → Text → Text
replace mark by [] = []
replace mark by (c ∷ t) = let rest = replace mark by t in if c == mark then by ++ rest else c ∷ rest

-- `str::split` on a character: the first part and the others.
unfoldable pub push_front : ℕ → Text × List Text → Text × List Text
push_front c (part, parts) = (c ∷ part, parts)

unfoldable pub cut : Text × List Text → Text × List Text
cut (part, parts) = ([], part ∷ parts)

unfoldable pub split : ℕ → Text → Text × List Text
unfolding push_front cut
split separator [] = ([], [])
split separator (c ∷ t) =
    let rest = split separator t in if c == separator then cut rest else push_front c rest

-- `{}` of a number: a digit for each round, of which the last has the leading one.
decimal_loop : ℕ → ℕ → Text → Text
decimal_loop zero n out = out
decimal_loop (suc fuel) n out =
    let more = decimal_loop fuel (n / 10) ((48 + n % 10) ∷ out) in
    if leb 10 n then more else (48 + n) ∷ out

unfoldable pub decimal : ℕ → Text
unfolding decimal_loop
decimal n = decimal_loop (suc n) n []

-- A text without a character.
abbrev pub Lacks : ℕ → Text → Type 0
Lacks c t = All (λ d. (d == c) ≡ false) t
