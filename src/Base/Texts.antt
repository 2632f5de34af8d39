-- ===== src/Base/Texts.antt =====
-- A Rust `String` is the list of its UTF-8 bytes, so `as_bytes` is the identity and `cmp`, on
-- strings as on byte slices, is the lexicographic order.
use Prim.Native.Nat.{ℕ, compare, Ordering}
use Prim.Native.Nat.Ordering.{lt, eq, gt}
use Prim.Native.Char.{code}
use Prim.Native.String.{String}
use mathlib.Core.Path.{◌≡◌, refl}
use mathlib.Core.Logic.{◌↔◌}
use mathlib.Core.Bool.{Bool, true, false, ◌&&◌}
use mathlib.Core.List.{List, [], ◌∷◌}
use native.Mathlib.Omega.{arith}
use dais.Base.Tests.{◌==◌}

abbrev pub Bytes : Type 0
Bytes = List ℕ

abbrev pub Text : Type 0
Text = List ℕ

-- The bytes of a literal of the source; all of these are ASCII.
unfoldable pub bytes : String → Text
bytes String.[] = []
bytes (String.◌∷◌ c s) = code c ∷ bytes s

unfoldable pub text_eq : Text → Text → Bool
text_eq [] [] = true
text_eq [] (b ∷ bs) = false
text_eq (a ∷ as') [] = false
text_eq (a ∷ as') (b ∷ bs) = (a == b) && text_eq as' bs

pub text_eq_iff : (s t : Text) → (text_eq s t ≡ true) ↔ (s ≡ t)
unfolding text_eq
text_eq_iff [] [] = ground arith
text_eq_iff [] (b ∷ bs) = ground arith
text_eq_iff (a ∷ as') [] = ground arith
text_eq_iff (a ∷ as') (b ∷ bs) = ground (arith, text_eq_iff as' bs)

unfoldable pub text_cmp : Text → Text → Ordering
text_cmp [] [] = eq
text_cmp [] (b ∷ bs) = lt
text_cmp (a ∷ as') [] = gt
text_cmp (a ∷ as') (b ∷ bs) = elim (compare a b) [ lt ↦ lt | eq ↦ text_cmp as' bs | gt ↦ gt ]

pub text_cmp_refl : (s : Text) → text_cmp s s ≡ eq
unfolding text_cmp
text_cmp_refl [] = refl
text_cmp_refl (a ∷ as') = ground (arith, text_cmp_refl as')

pub text_cmp-eq : (s t : Text) → text_cmp s t ≡ eq → s ≡ t
unfolding text_cmp
text_cmp-eq [] [] h = refl
text_cmp-eq [] (b ∷ bs) h = cc
text_cmp-eq (a ∷ as') [] h = cc
text_cmp-eq (a ∷ as') (b ∷ bs) h = ground (arith, text_cmp-eq as' bs)

-- The order turned round.
abbrev pub flip : Ordering → Ordering
flip lt = gt
flip eq = eq
flip gt = lt

pub text_cmp-flip : (s t : Text) → text_cmp t s ≡ flip (text_cmp s t)
unfolding text_cmp
text_cmp-flip [] [] = refl
text_cmp-flip [] (b ∷ bs) = refl
text_cmp-flip (a ∷ as') [] = refl
text_cmp-flip (a ∷ as') (b ∷ bs) = ground (arith, text_cmp-flip as' bs)

pub text_cmp_trans : (s t u : Text) → text_cmp s t ≡ lt → text_cmp t u ≡ lt → text_cmp s u ≡ lt
unfolding text_cmp
text_cmp_trans [] t [] h k = ground arith
text_cmp_trans [] t (c ∷ cs) h k = refl
text_cmp_trans (a ∷ as') [] u h k = cc
text_cmp_trans (a ∷ as') (b ∷ bs) [] h k = cc
text_cmp_trans (a ∷ as') (b ∷ bs) (c ∷ cs) h k = ground (arith, text_cmp_trans as' bs cs)
