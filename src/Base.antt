-- ===== src/Base.antt =====
-- The names that the other modules share: the libraries', passed on, and those of the children.
mod Tests
mod Lists
mod Texts
mod Outcome
mod Trim
mod Scan
mod Words
pub mod Run
pub use Tests.*
unfoldable pub use Tests.{all_below}
pub use Lists.*
unfoldable pub use Texts.{bytes, text_eq, text_cmp}
pub use Texts.{
  Bytes, Text, text_eq_iff, text_cmp-eq, text_cmp_refl, text_cmp-flip, text_cmp_trans, flip,
}
pub use Outcome.*
unfoldable pub use Trim.{skip_white, skip_whites, trim_start, trim_end, trim, is_nil, is_blank}
unfoldable pub use Scan.{
  starts_with, contains, strip_prefix, to_ascii_lowercase, cut_at, find_lower, trim_start_matches,
  trim_end_matches, take_until, cut, push_front, split, decimal, replace,
}
unfoldable pub use Words.{flush, split_words, split_whitespace, trim_matches, join}
pub use Scan.{lower_byte, is_ascii_whitespace, Lacks}
unfoldable pub use Outcome.{collect}
pub use Prim.Native.Nat.{
  ℕ, zero, suc, ◌+◌, ◌-◌, ◌*◌, ◌/◌, ◌%◌, ◌^◌, ◌≤◌, ◌<◌, min, max, compare, Ordering, bit_and,
  bit_or,
}
pub use Prim.Native.Nat.Ordering.{lt, eq, gt}
pub use mathlib.Core.Path.{◌≡◌, refl, sym, ap, ◌∙◌}
pub use mathlib.Core.Logic.{◌≢◌, ◌↔◌, ◌⊎◌, inl, inr}
pub use mathlib.Core.Bool.{Bool, true, false, ◌&&◌, ◌||◌, not}
pub use mathlib.Core.Option.{Option, none, some}
pub use mathlib.Core.List.{List, [], ◌∷◌, ◌++◌, map, append-nil, append_assoc}
pub use native.Mathlib.Omega.{arith}
