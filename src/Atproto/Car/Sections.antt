-- ===== src/Atproto/Car/Sections.antt =====
-- `decode_car` ends: every round of its loop takes at least a byte off the cursor.

use dais.Base.{
  ℕ, zero, suc, ◌+◌, ◌<◌, ◌≤◌, Bytes, List, [], ◌∷◌, ◌++◌, none, ok, ◌≡◌, ◌≢◌, arith, length,
  length-drop, >>=-eq-ok, Result-cases, inl, inr, take-append_self, drop-append_self, length-append,
  length,
}
use dais.Formats.{Formats}
use dais.Atproto.Varint.{read_uvarint, read_loop, or_group}
use dais.Atproto.Car.{take, decode_next, decode_section, decode_blocks}

take_shrinks :
    (cursor : Bytes) (n : ℕ) (front rest : Bytes)
    → take cursor n ≡ ok (front, rest)
    → length rest ≤ length cursor
unfolding take
take_shrinks cursor n front rest h = ground (arith, length-drop n cursor)

-- `take` cuts a list where its first part ends.
pub take-append : (front rest : Bytes) → take (front ++ rest) (length front) ≡ ok (front, rest)
unfolding take
take-append front rest =
    ground
      (arith, length-append front rest, take-append_self front rest, drop-append_self front rest)

module _ {C F N : Type 0} (x : Formats C F N) where
  read_loop_shrinks :
      (cursor : Bytes) (value shift v : ℕ) (rest : Bytes)
      → read_loop x cursor value shift ≡ ok (v, rest)
      → length rest < length cursor
  unfolding read_loop
  read_loop_shrinks [] value shift v rest h = cc
  read_loop_shrinks (b ∷ bs) value shift v rest h =
      ground (arith, read_loop_shrinks bs (or_group value b shift) (shift + 7) v rest)

  pub read_uvarint_shrinks :
      (cursor : Bytes) (v : ℕ) (rest : Bytes)
      → read_uvarint x cursor ≡ ok (v, rest)
      → length rest < length cursor
  unfolding read_uvarint
  read_uvarint_shrinks cursor v rest h = read_loop_shrinks cursor 0 0 v rest h

  -- One round leaves a shorter cursor.
  pub decode_next_shrinks :
      (cursor : Bytes) (blocks : List (C × Bytes)) (rest : Bytes) (blocks' : List (C × Bytes))
      → decode_next x cursor blocks ≡ ok (rest, blocks')
      → length rest < length cursor
  unfolding decode_next
  decode_next_shrinks cursor blocks rest blocks' h =
      let ((n, after), read, h₁) = >>=-eq-ok (read_uvarint x cursor) _ h in
      let ((section, after'), took, h₂) = >>=-eq-ok (take after n) _ h₁ in
      let ((cid, payload), split, h₃) = >>=-eq-ok (decode_section x section) _ h₂ in
      ground (
        arith,
        h₃,
        read_uvarint_shrinks cursor n after read,
        take_shrinks after n section after' took,
      )

  -- With as much fuel as bytes the loop of `decode_car` never runs out, on any input.
  pub decode_blocks-ne-none :
      (fuel : ℕ) (cursor : Bytes) (blocks : List (C × Bytes))
      → length cursor ≤ fuel
      → decode_blocks x fuel cursor blocks ≢ none
  unfolding decode_blocks
  decode_blocks-ne-none fuel [] blocks h = λ e. cc
  decode_blocks-ne-none zero (b ∷ bs) blocks h = elim h [ ]
  decode_blocks-ne-none (suc fuel) (b ∷ bs) blocks h =
      elim (Result-cases (decode_next x (b ∷ bs) blocks)) [
        | inl ((rest, blocks'), e) ↦
            rw (e, decode_blocks)
              (decode_blocks-ne-none fuel rest blocks'
                (omega (arith, decode_next_shrinks (b ∷ bs) blocks rest blocks' e)))
        | inr (x', e) ↦ rw (e, decode_blocks) (λ p. cc)
      ]
