-- ===== src/Atproto/Car/RoundTrip.antt =====
-- `decode_car` reads back the archive that `encode_car` wrote.
use mathlib.Core.Path.{subst}
use dais.Base.{
  ℕ, zero, suc, ◌+◌, ◌<◌, ◌≤◌, ◌^◌, Bytes, bytes, List, [], ◌∷◌, ◌++◌, some, ok, ◌≡◌, refl, sym,
  ◌∙◌, arith, length, All, append_assoc, append-nil, length-append, >>=-eq-ok, collect,
  ok-injective, text_cmp, text_eq,
}
use dais.Ipld.{of_list, to_list, get, insert, insert_all}
use dais.Formats.{Formats, IsLawful}
use dais.Atproto.Cbor.{
  dag_cbor_bytes, map_ipld, require_list, require_map, from_slice-dag_cbor_bytes,
}
use dais.Atproto.Varint.{write_uvarint}
use dais.Atproto.Varint.RoundTrip.{read-write_uvarint, write_uvarint-append}
use dais.Atproto.Car.{
  CarBlock, insert_block, decode_header_roots, decode_section, decode_next, decode_blocks,
  decode_car, car_header, encode_blocks, encode_car,
}
use dais.Atproto.Car.Sections.{take-append, decode_next_shrinks}
use dais.Atproto.Car.Blocks.{insert_blocks}

module _ {C F N : Type 0} (x : Formats C F N) (laws : IsLawful x) where
  -- A length that the varint reader takes and a `usize` holds.
  abbrev pub Fits : ℕ → Type 0
  Fits n = (n < 2 ^ 63) × (n < x.usize_range)

  abbrev section_len : CarBlock C → ℕ
  section_len b = length (x.cid_bytes b.cid) + length b.payload

  abbrev pub FitsBlock : CarBlock C → Type 0
  FitsBlock b = Fits (length (x.cid_bytes b.cid) + length b.payload)

  sections : List (CarBlock C) → Bytes
  sections [] = []
  sections (b ∷ rest) =
      write_uvarint (section_len b) [] ++ ((x.cid_bytes b.cid ++ b.payload) ++ sections rest)

  encode_blocks-sections :
      (bs : List (CarBlock C)) (output : Bytes)
      → All FitsBlock bs
      → encode_blocks x bs output ≡ output ++ sections bs
  unfolding encode_blocks sections
  encode_blocks-sections [] output h = sym (append-nil output)
  encode_blocks-sections (b ∷ rest) output h =
      encode_blocks-sections rest _ h.1
      ∙ rw (write_uvarint-append (section_len b) output (omega arith)) (simp append_assoc)

  decode_next-section :
      (b : CarBlock C) (rest : Bytes) (m : List (C × Bytes))
      → FitsBlock b
      → decode_next x
          (write_uvarint (section_len b) [] ++ ((x.cid_bytes b.cid ++ b.payload) ++ rest))
          m
        ≡ ok (rest, insert_block x b.cid b.payload m)
  unfolding decode_next decode_section
  decode_next-section b rest m h = rw (
    read-write_uvarint x (section_len b) ((x.cid_bytes b.cid ++ b.payload) ++ rest) h.0 h.1,
    ← length-append (x.cid_bytes b.cid) b.payload,
    take-append (x.cid_bytes b.cid ++ b.payload) rest,
    laws.read_cid-cid_bytes b.cid b.payload,
  )

  decode_blocks_step :
      (fuel : ℕ) (cursor rest : Bytes) (m m' : List (C × Bytes))
      → decode_next x cursor m ≡ ok (rest, m')
      → decode_blocks x (suc fuel) cursor m ≡ decode_blocks x fuel rest m'
  decode_blocks_step fuel [] rest m m' e =
      absurd (omega (arith, decode_next_shrinks x [] m rest m' e))
  decode_blocks_step fuel (b ∷ bs) rest m m' e = unfold decode_blocks in rw (e, decode_blocks)

  decode_blocks-sections :
      (bs : List (CarBlock C)) (fuel : ℕ) (m : List (C × Bytes))
      → All FitsBlock bs
      → length (sections bs) ≤ fuel
      → decode_blocks x fuel (sections bs) m ≡ some (ok (insert_blocks x bs m))
  unfolding sections insert_blocks
  decode_blocks-sections [] fuel m h enough = unfold decode_blocks in refl
  decode_blocks-sections (b ∷ rest) zero m h enough =
      absurd
        (omega (arith, decode_next_shrinks x _ m _ _ (decode_next-section b (sections rest) m h.0)))
  decode_blocks-sections (b ∷ rest) (suc fuel) m h enough =
      let step = decode_next-section b (sections rest) m h.0 in
      decode_blocks_step fuel _ (sections rest) m _ step
      ∙ decode_blocks-sections rest fuel (insert_block x b.cid b.payload m) h.1
          (omega (arith, decode_next_shrinks x _ m _ _ step))

  decode_header-car_header :
      (root : C) (header : Bytes)
      → dag_cbor_bytes x (car_header x root) ≡ ok header
      → decode_header_roots x header ≡ ok (root ∷ [])
  unfolding decode_header_roots car_header map_ipld insert_all insert get to_list of_list collect
      require_map require_list text_cmp text_eq bytes
  decode_header-car_header root header e = rw (from_slice-dag_cbor_bytes x laws _ header e)

  decode_car-parts :
      (root : C) (bs : List (CarBlock C)) (header : Bytes)
      → Fits (length header)
      → All FitsBlock bs
      → dag_cbor_bytes x (car_header x root) ≡ ok header
      → decode_car x (write_uvarint (length header) [] ++ (header ++ sections bs))
        ≡ ok (record { roots = root ∷ []; blocks = insert_blocks x bs [] })
  unfolding decode_car
  decode_car-parts root bs header small h he = rw (
    read-write_uvarint x (length header) (header ++ sections bs) small.0 small.1,
    take-append header (sections bs),
    decode_header-car_header root header he,
    decode_blocks-sections bs (length (sections bs)) [] h (omega arith),
  )

  -- The archive that `encode_car` writes is read back: its one root, and each block inserted in
  -- the order in which it was written, if the lengths of the header and of each section fit.
  pub decode_car-encode_car :
      (root : C) (bs : List (CarBlock C)) (output : Bytes)
      → ((header : Bytes) → dag_cbor_bytes x (car_header x root) ≡ ok header → Fits (length header))
      → All FitsBlock bs
      → encode_car x root bs ≡ ok output
      → decode_car x output ≡ ok (record { roots = root ∷ []; blocks = insert_blocks x bs [] })
  unfolding encode_car decode_car
  decode_car-encode_car root bs output small h e =
      let (header, he, e') = >>=-eq-ok (dag_cbor_bytes x (car_header x root)) _ e in
      let whole = encode_blocks-sections bs (write_uvarint (length header) [] ++ header) h in
      subst
        (λ t. decode_car x t ≡ ok (record { roots = root ∷ []; blocks = insert_blocks x bs [] }))
        (sym (append_assoc (write_uvarint (length header) []) header (sections bs))
          ∙ sym whole
          ∙ ok-injective e')
        (decode_car-parts root bs header (small header he) h he)
