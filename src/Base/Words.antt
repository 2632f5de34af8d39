-- ===== src/Base/Words.antt =====
-- `split_whitespace` and `trim_matches`, on a text in UTF-8.
use Prim.Native.Nat.{ℕ, zero, suc}
use mathlib.Core.List.{List, [], ◌∷◌, ◌++◌}
use mathlib.Core.Option.{none, some}
use dais.Base.Lists.{length}
use dais.Base.Texts.{Text}
use dais.Base.Trim.{skip_white}
use dais.Base.Scan.{trim_start_matches, trim_end_matches}

-- A word that has ended, if there was one.
unfoldable pub flush : Text → List Text → List Text
flush [] words = words
flush (c ∷ word) words = (c ∷ word) ∷ words

-- The word so far, and the text behind it. Each round takes a byte at least.
unfoldable pub split_words : ℕ → Text → Text → List Text
unfolding flush
split_words fuel word [] = flush word []
split_words zero word (c ∷ t) = flush word []
split_words (suc fuel) word (c ∷ t) = elim (skip_white (c ∷ t)) [
  | some rest ↦ flush word (split_words fuel [] rest)
  | none ↦ split_words fuel (word ++ c ∷ []) t
]

unfoldable pub split_whitespace : Text → List Text
split_whitespace t = split_words (length t) [] t

-- `trim_matches` of a character
unfoldable pub trim_matches : ℕ → Text → Text
trim_matches mark t = trim_end_matches mark (trim_start_matches mark t)

-- `join` of a list of texts
unfoldable pub join : Text → List Text → Text
join separator [] = []
join separator (t ∷ []) = t
join separator (t ∷ u ∷ more) = t ++ (separator ++ join separator (u ∷ more))
