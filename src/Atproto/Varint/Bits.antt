-- ===== src/Atproto/Varint/Bits.antt =====
-- The masks of the varint code as arithmetic.
use Prim.Native.Nat.{digits, bit_or-bitwise}
use dais.Base.{
  ℕ, zero, suc, ◌+◌, ◌*◌, ◌/◌, ◌%◌, ◌^◌, ◌≤◌, ◌<◌, max, bit_and, bit_or, ◌≡◌, refl, arith, ◌==◌,
  ==_iff, all_below, all_below_sound,
}
use native.Mathlib.Nat.{pow-suc}

pub low_group : (b : ℕ) → b < 256 → bit_and b 0x7f ≡ b % 128
unfolding all_below
low_group b h = (==_iff _ _).0 (all_below_sound 256 (λ c. bit_and c 0x7f == c % 128) b refl h)

pub top_bit : (b : ℕ) → b < 256 → bit_and b 0x80 ≡ b / 128 * 128
unfolding all_below
top_bit b h = (==_iff _ _).0 (all_below_sound 256 (λ c. bit_and c 0x80 == c / 128 * 128) b refl h)

pub set_top : (b : ℕ) → b < 256 → bit_or b 0x80 ≡ b % 128 + 128
unfolding all_below
set_top b h = (==_iff _ _).0 (all_below_sound 256 (λ c. bit_or c 0x80 == c % 128 + 128) b refl h)

-- `bit_or` digit by digit.
abbrev or_digits : ℕ → ℕ → ℕ → ℕ
or_digits n a b = digits (λ c. c) max n a b

or_digits_fuel : (n m a b : ℕ) → a ≤ n → a ≤ m → or_digits n a b ≡ or_digits m a b
or_digits_fuel zero zero a b p q = refl
or_digits_fuel zero (suc m) zero b p q = refl
or_digits_fuel zero (suc m) (suc a) b p q = elim p [ ]
or_digits_fuel (suc n) zero zero b p q = refl
or_digits_fuel (suc n) zero (suc a) b p q = elim q [ ]
or_digits_fuel (suc n) (suc m) zero b p q = refl
or_digits_fuel (suc n) (suc m) (suc a) b p q =
    omega (arith, or_digits_fuel n m (suc a / 2) (b / 2) (omega arith) (omega arith))

pub zero-bit_or : (b : ℕ) → bit_or 0 b ≡ b
zero-bit_or b = bit_or-bitwise 0 b

pub bit_or_step : (a b : ℕ) → bit_or a b ≡ bit_or (a / 2) (b / 2) * 2 + max (a % 2) (b % 2)
bit_or_step zero b = omega (arith, zero-bit_or b, zero-bit_or (b / 2))
bit_or_step (suc a) b = omega (
  arith,
  bit_or-bitwise (suc a) b,
  bit_or-bitwise (suc a / 2) (b / 2),
  or_digits_fuel a (suc a / 2) (suc a / 2) (b / 2) (omega arith) (omega arith),
)

bit_or_double : (a m : ℕ) → bit_or a (m * 2) ≡ bit_or (a / 2) m * 2 + a % 2
bit_or_double a m =
    let half : m * 2 / 2 ≡ m = omega arith in omega (arith, rw half at (bit_or_step a (m * 2)))

-- Disjoint parts: below bit `k`, and from bit `k` on.
pub bit_or_disjoint : (k a g : ℕ) → a < 2 ^ k → bit_or a (g * 2 ^ k) ≡ a + g * 2 ^ k
bit_or_disjoint zero a g h =
    let none_left : a ≡ 0 = omega arith in rw (none_left, zero-bit_or) (omega arith)
bit_or_disjoint (suc k) a g h =
    let e : g * 2 ^ suc k ≡ g * 2 ^ k * 2 = rw pow-suc (omega arith) in
    let small : a < 2 ^ k * 2 = rw pow-suc at h in
    rw e (omega (arith, bit_or_double a (g * 2 ^ k), bit_or_disjoint k (a / 2) g (omega arith)))
