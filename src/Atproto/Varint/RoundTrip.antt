-- ===== src/Atproto/Varint/RoundTrip.antt =====
-- `read_uvarint` reads back what `write_uvarint` wrote, up to the reader's bound of nine bytes.
use dais.Base.{
  ℕ, zero, suc, ◌+◌, ◌*◌, ◌/◌, ◌%◌, ◌^◌, ◌≤◌, ◌<◌, Bytes, bytes, [], ◌∷◌, ◌++◌, ◌≡◌, ap, sym, ◌∙◌,
  ok, ltb, if◌then◌else◌, arith, append_assoc,
}
use dais.Formats.{Formats}
use dais.Atproto.Cbor.{invalid}
use dais.Atproto.Varint.{
  write_loop, write_uvarint, or_group, read_loop, read_uvarint, lt_wf, to_usize,
}
use dais.Atproto.Varint.Bits.{low_group, top_bit, set_top, bit_or_disjoint}
use mathlib.Core.WellFounded.{Acc}
use native.Mathlib.Nat.{div-add-mod, mod-eq_of_lt, pow-suc}
use native.Mathlib.Numerals.{towards_suc}

-- The bytes of `v`, written in `k` continuation bytes at most.
unfoldable pub groups : ℕ → ℕ → Bytes
groups zero v = (v % 256) ∷ []
groups (suc k) v =
    let more = groups k (v / 128) in if ltb 127 v then (v % 128 + 128) ∷ more else (v % 256) ∷ []

write_loop-groups :
    (k : ℕ) (output : Bytes) (v : ℕ) (w : Acc ◌<◌ v)
    → v < 128 ^ suc k
    → write_loop output v w ≡ output ++ groups k v
unfolding write_loop groups
write_loop-groups zero output v (Acc.intro _ smaller) h = grind arith
write_loop-groups (suc k) output v (Acc.intro _ smaller) h =
    let step : Bytes = (v % 128 + 128) ∷ [] in
    grind (
      arith,
      set_top (v % 256) (omega arith),
      λ (w : Acc ◌<◌ (v / 128)). write_loop-groups k (output ++ step) (v / 128) w (omega arith),
      append_assoc output step (groups k (v / 128)),
    )

shift_seven : (s : ℕ) → 2 ^ (s + 7) ≡ 2 ^ s * 128
shift_seven s = simp towards_suc (omega arith)

-- A number above bit `s` is its lowest group there and the rest seven bits up.
group_split : (v s : ℕ) → v * 2 ^ s ≡ v % 128 * 2 ^ s + v / 128 * 2 ^ (s + 7)
group_split v s = rw (shift_seven s) (omega (arith, ap (λ (t : ℕ). t * 2 ^ s) (div-add-mod v 128)))

group_below : (acc g s : ℕ) → acc < 2 ^ s → g < 128 → acc + g * 2 ^ s < 2 ^ (s + 7)
group_below acc g s h k = rw (shift_seven s) (grind arith)

-- One group is added.
or_group-add :
    (acc b s : ℕ)
    → b < 256
    → acc < 2 ^ s
    → b % 128 * 2 ^ s < 2 ^ 64
    → or_group acc b s ≡ acc + b % 128 * 2 ^ s
or_group-add acc b s hb ha fits =
    rw (low_group b hb, mod-eq_of_lt fits) (bit_or_disjoint s acc (b % 128) ha)

pow_pos : (k : ℕ) → 0 < 128 ^ k
pow_pos zero = omega arith
pow_pos (suc k) = rw pow-suc (omega (arith, pow_pos k))

module _ {C F N : Type 0} (x : Formats C F N) where
  last_group :
      (acc v s : ℕ) (rest : Bytes)
      → v < 128
      → s < 63
      → acc < 2 ^ s
      → acc + v * 2 ^ s < 2 ^ 64
      → read_loop x (v % 256 ∷ rest) acc s ≡ to_usize x (acc + v * 2 ^ s) rest
  unfolding read_loop
  last_group acc v s rest hv hs ha fits = ground (arith, top_bit (v % 256), or_group-add acc v s)

  inner_group :
      (acc g s : ℕ) (rest : Bytes)
      → g < 128
      → s < 63
      → acc < 2 ^ s
      → acc + g * 2 ^ s < 2 ^ 64
      → read_loop x ((g + 128) ∷ rest) acc s ≡ read_loop x rest (acc + g * 2 ^ s) (s + 7)
  unfolding read_loop
  inner_group acc g s rest hg hs ha fits =
      ground (arith, top_bit (g + 128), or_group-add acc (g + 128) s)

  read_loop-groups :
      (k v acc s : ℕ) (rest : Bytes)
      → v < 128 ^ suc k
      → s + 7 * k < 63
      → acc < 2 ^ s
      → acc + v * 2 ^ s < 2 ^ 64
      → read_loop x (groups k v ++ rest) acc s ≡ to_usize x (acc + v * 2 ^ s) rest
  unfolding groups
  read_loop-groups zero v acc s rest hv hs ha fits =
      last_group acc v s rest hv (omega arith) ha fits
  read_loop-groups (suc k) v acc s rest hv hs ha fits = ground (
    arith,
    last_group acc v s rest,
    group_split v s,
    inner_group acc (v % 128) s (groups k (v / 128) ++ rest),
    group_below acc (v % 128) s,
    read_loop-groups k (v / 128) (acc + v % 128 * 2 ^ s) (s + 7) rest (omega arith),
  )

  read_loop_too_large :
      (k v acc s : ℕ) (rest : Bytes)
      → 128 ^ k ≤ v
      → 63 ≤ s + 7 * k
      → read_loop x (groups k v ++ rest) acc s ≡ invalid (bytes "CAR varint is too large")
  unfolding groups read_loop
  read_loop_too_large zero v acc s rest hv hs = ground arith
  read_loop_too_large (suc k) v acc s rest hv hs =
      let enough : 128 ^ k * 128 ≤ v = rw pow-suc at hv in
      let long : 127 < v = omega (arith, pow_pos k) in
      ground (
        arith,
        top_bit (v % 128 + 128) (omega arith),
        read_loop_too_large k (v / 128) (or_group acc (v % 128 + 128) s) (s + 7) rest (omega arith),
      )

  -- A number below 2 ^ 63 and in the range of `usize` is read back as it was written, whatever
  -- follows it.
  pub read-write_uvarint :
      (v : ℕ) (rest : Bytes)
      → v < 2 ^ 63
      → v < x.usize_range
      → read_uvarint x (write_uvarint v [] ++ rest) ≡ ok (v, rest)
  unfolding read_uvarint write_uvarint to_usize
  read-write_uvarint v rest h small =
      rw (write_loop-groups 8 [] v (lt_wf.apply v) h)
        (ground (arith, read_loop-groups 8 v 0 0 rest h))

  -- A `u64` from 2 ^ 63 on is written in ten bytes, which `read_uvarint` refuses.
  pub read-write_uvarint_too_large :
      (v : ℕ) (rest : Bytes)
      → 2 ^ 63 ≤ v
      → v < 2 ^ 64
      → read_uvarint x (write_uvarint v [] ++ rest) ≡ invalid (bytes "CAR varint is too large")
  unfolding read_uvarint write_uvarint
  read-write_uvarint_too_large v rest lo hi =
      rw (write_loop-groups 9 [] v (lt_wf.apply v) (omega arith))
        (read_loop_too_large 9 v 0 0 rest (omega arith) (omega arith))

-- Writing appends to what is there.
pub write_uvarint-append :
    (v : ℕ) (output : Bytes) → v < 2 ^ 64 → write_uvarint v output ≡ output ++ write_uvarint v []
unfolding write_uvarint
write_uvarint-append v output h =
    write_loop-groups 9 output v (lt_wf.apply v) (omega arith)
    ∙ ap (λ t. output ++ t) (sym (write_loop-groups 9 [] v (lt_wf.apply v) (omega arith)))
