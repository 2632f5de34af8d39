-- ===== src/Atproto/Varint.antt =====
-- Unsigned varints: `write_uvarint` of core/src/atproto/repo.rs and `read_uvarint` of
-- core/src/atproto/car.rs. A value is a `u64`, a byte a number below 256.
pub mod Bits
pub mod RoundTrip
use dais.Base.{
  ℕ, zero, suc, ◌+◌, ◌*◌, ◌/◌, ◌%◌, ◌^◌, ◌<◌, bit_and, bit_or, Bytes, bytes, List, [], ◌∷◌, ◌++◌,
  CoreResult, ok, ltb, leb, ◌==◌, if◌then◌else◌, ◌≢◌, arith,
}
use dais.Formats.{Formats}
use dais.Atproto.Cbor.{invalid}
use mathlib.Core.WellFounded.{Acc, WellFounded}
use mathlib.Core.Logic.{dite}
use native.Mathlib.Decide.{dec_lt}

acc_below : (k n : ℕ) → n < k → Acc ◌<◌ n
acc_below zero n h = elim h [ ]
acc_below (suc k) n h = Acc.intro n (λ m hm. acc_below k m (omega arith))

unfoldable pub lt_wf : WellFounded ◌<◌
unfolding acc_below
lt_wf = record { apply = λ n. acc_below (suc n) n (omega arith) }

shrinks : (v : ℕ) → 127 < v → v / 128 < v
shrinks v h = omega arith

-- `while value >= 0x80 { output.push((value as u8) | 0x80); value >>= 7; }`, then the last byte.
unfoldable pub write_loop : Bytes → (value : ℕ) → Acc ◌<◌ value → Bytes
unfolding shrinks
write_loop output value (Acc.intro _ smaller) =
    dite (dec_lt 127 value)
      (λ more.
        write_loop (output ++ bit_or (value % 256) 0x80 ∷ []) (value / 128)
          (smaller _ (shrinks value more)))
      (λ _. output ++ (value % 256) ∷ [])

unfoldable pub write_uvarint : ℕ → Bytes → Bytes
unfolding write_loop lt_wf dec_lt
write_uvarint value output = write_loop output value (lt_wf.apply value)

-- `value |= u64::from(byte & 0x7f) << shift`
abbrev pub or_group : ℕ → ℕ → ℕ → ℕ
or_group value byte shift = bit_or value (bit_and byte 0x7f * 2 ^ shift % 2 ^ 64)

module _ {C F N : Type 0} (x : Formats C F N) where
  -- `usize::try_from(value)`
  unfoldable pub to_usize : ℕ → Bytes → CoreResult (ℕ × Bytes)
  to_usize value rest =
      if ltb value x.usize_range
      then ok (value, rest)
      else invalid (bytes "CAR varint overflows usize")

  -- The list is the cursor. The result is the number with the cursor behind it.
  unfoldable pub read_loop : Bytes → ℕ → ℕ → CoreResult (ℕ × Bytes)
  unfolding to_usize
  read_loop [] value shift = invalid (bytes "CAR file truncated inside a varint")
  read_loop (byte ∷ rest) value shift =
      let more = read_loop rest (or_group value byte shift) (shift + 7) in
      if leb 63 shift
      then invalid (bytes "CAR varint is too large")
      else if bit_and byte 0x80 == 0
      then to_usize (or_group value byte shift) rest
      else more

  unfoldable pub read_uvarint : Bytes → CoreResult (ℕ × Bytes)
  unfolding read_loop
  read_uvarint cursor = read_loop cursor 0 0
