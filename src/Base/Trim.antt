-- ===== src/Base/Trim.antt =====
-- `str::trim` and its relatives, on a text in UTF-8.
use Prim.Native.Nat.{ℕ, zero, suc}
use mathlib.Core.Bool.{Bool, true, false, ◌&&◌, ◌||◌}
use mathlib.Core.List.{[], ◌∷◌}
use mathlib.Core.Option.{Option, none, some}
use dais.Base.Tests.{◌==◌, leb, if◌then◌else◌}
use dais.Base.Lists.{length}
use dais.Base.Texts.{Text}

-- `char::is_whitespace` at the front of a text: what is left behind it.
unfoldable pub skip_white : Text → Option Text
skip_white [] = none
skip_white (a ∷ []) = if (leb 9 a && leb a 13) || a == 32 then some [] else none
skip_white (a ∷ b ∷ []) =
    if (leb 9 a && leb a 13) || a == 32
    then some (b ∷ [])
    else if a == 0xc2 && (b == 0x85 || b == 0xa0)
    then some []
    else none
skip_white (a ∷ b ∷ c ∷ rest) =
    if (leb 9 a && leb a 13) || a == 32
    then some (b ∷ c ∷ rest)
    else if a == 0xc2 && (b == 0x85 || b == 0xa0)
    then some (c ∷ rest)
    else if (a == 0xe1 && b == 0x9a && c == 0x80)
        || (a == 0xe2
            && b == 0x80
            && ((leb 0x80 c && leb c 0x8a) || c == 0xa8 || c == 0xa9 || c == 0xaf))
        || (a == 0xe2 && b == 0x81 && c == 0x9f)
        || (a == 0xe3 && b == 0x80 && c == 0x80)
    then some rest
    else none

-- A white character takes a byte at least, so a round for each byte is enough.
unfoldable pub skip_whites : ℕ → Text → Text
skip_whites zero t = t
skip_whites (suc fuel) t = elim (skip_white t) [ none ↦ t | some rest ↦ skip_whites fuel rest ]

unfoldable pub trim_start : Text → Text
unfolding skip_whites skip_white
trim_start t = skip_whites (length t) t

unfoldable pub is_nil : Text → Bool
is_nil [] = true
is_nil (a ∷ t) = false

-- `text.trim().is_empty()`
unfoldable pub is_blank : Text → Bool
unfolding is_nil trim_start
is_blank t = is_nil (trim_start t)

-- A white character never begins inside another one, so the text can be cut at any byte.
unfoldable pub trim_end : Text → Text
trim_end [] = []
trim_end (a ∷ t) = let rest = trim_end t in if is_blank (a ∷ t) then [] else a ∷ rest

unfoldable pub trim : Text → Text
trim t = trim_end (trim_start t)
