-- ===== src/Atproto/Car.antt =====
-- CAR v1 archives: `decode_car` and what it calls (core/src/atproto/car.rs), and `encode_car`
-- (core/src/atproto/repo.rs).
pub mod Sections
pub mod Blocks
pub mod RoundTrip
use dais.Base
use dais.Base.{
  ℕ, zero, suc, ◌+◌, Text, Bytes, bytes, List, [], ◌∷◌, ◌++◌, Option, none, some, Bool, true, false,
  CoreError, CoreResult, invalid_at_proto, internal, ok, err, map_err, collect, ◌>>=◌, ◌>>◌, length,
  ltb, ◌==◌, if◌then◌else◌,
}
use dais.Ipld.{Ipld, ℤ, Fields, integer, list, link, pos, get, to_list, of_list}
use dais.Formats.{Formats}
use dais.Atproto.Cbor.{invalid, map_ipld, dag_cbor_bytes, require_list, require_map}
use dais.Atproto.Varint.{write_uvarint, read_uvarint}

-- The blocks are a `BTreeMap<Cid, Vec<u8>>`; the code looks them up and never orders them.
pub record CarFile (C : Type 0) : Type 0 where
  pub roots : List C
  pub blocks : List (C × Bytes)

pub record CarBlock (C : Type 0) : Type 0 where
  pub cid : C
  pub payload : Bytes

-- `cursor.split_at(len)`, where the cursor holds that much.
unfoldable pub take : Bytes → ℕ → CoreResult (Bytes × Bytes)
take cursor len =
    if ltb (length cursor) len
    then invalid (bytes "CAR file truncated: declared length exceeds remaining bytes")
    else ok (Base.take len cursor, Base.drop len cursor)

module _ {C F N : Type 0} (x : Formats C F N) where
  -- `BTreeMap::get` and `BTreeMap::insert`
  unfoldable pub find_block : C → List (C × Bytes) → Option Bytes
  find_block cid [] = none
  find_block cid ((c, b) ∷ rest) = if x.cid_eq c cid then some b else find_block cid rest

  unfoldable pub insert_block : C → Bytes → List (C × Bytes) → List (C × Bytes)
  insert_block cid payload [] = (cid, payload) ∷ []
  insert_block cid payload ((c, b) ∷ rest) =
      if x.cid_eq c cid then (c, payload) ∷ rest else (c, b) ∷ insert_block cid payload rest

  unfoldable pub block : CarFile C → C → Option Bytes
  unfolding find_block
  block car cid = find_block cid car.blocks

  check_version : Option (Ipld C F) → CoreResult (Unit {0})
  check_version (some (integer (pos (suc zero)))) = ok tt
  check_version (some other) = invalid (bytes "unsupported CAR version: " ++ x.debug other)
  check_version none = invalid (bytes "CAR header is missing version")

  root_of : Ipld C F → CoreResult C
  root_of (link cid) = ok cid
  root_of other = invalid (bytes "CAR header root is not a CID link: " ++ x.debug other)

  unfoldable pub decode_header_roots : Bytes → CoreResult (List C)
  unfolding check_version root_of
  decode_header_roots header_bytes = do
    header ←
        map_err (λ e. invalid_at_proto (bytes "CAR header is not DAG-CBOR: " ++ e))
          (x.from_slice header_bytes)
    fields ← require_map (bytes "CAR header must be a CBOR map") header
    check_version (get (bytes "version") fields)
    roots ← require_list (bytes "roots") (bytes "CAR header is missing roots") fields
    collect root_of (to_list roots)

  unfoldable pub decode_section : Bytes → CoreResult (C × Bytes)
  decode_section section =
      map_err (λ e. invalid_at_proto (bytes "invalid CAR block CID: " ++ e)) (x.read_cid section)

  -- One round of the loop of `decode_car`: the cursor and the blocks after it.
  unfoldable pub decode_next : Bytes → List (C × Bytes) → CoreResult (Bytes × List (C × Bytes))
  unfolding decode_section
  decode_next cursor blocks = do
    (section_len, cursor) ← read_uvarint x cursor
    (section, cursor) ← take cursor section_len
    (cid, block_bytes) ← decode_section section
    ok (cursor, insert_block cid block_bytes blocks)

  -- `while !cursor.is_empty()`, with fuel; `none` means that the fuel ran out.
  unfoldable pub decode_blocks :
      ℕ → Bytes → List (C × Bytes) → Option (CoreResult (List (C × Bytes)))
  decode_blocks fuel [] blocks = some (ok blocks)
  decode_blocks zero (b ∷ bs) blocks = none
  decode_blocks (suc fuel) (b ∷ bs) blocks = elim (decode_next (b ∷ bs) blocks) [
    | ok (cursor, blocks') ↦ decode_blocks fuel cursor blocks'
    | err e ↦ some (err e)
  ]

  -- A round takes one byte at least, so as many rounds as bytes are enough: the last case does not
  -- arise (`decode_blocks-ne-none`).
  finish_blocks : Option (CoreResult (List (C × Bytes))) → CoreResult (List (C × Bytes))
  finish_blocks (some r) = r
  finish_blocks none = err (internal (bytes "out of fuel"))

  unfoldable pub decode_car : Bytes → CoreResult (CarFile C)
  unfolding finish_blocks
  decode_car input = do
    (header_len, cursor) ← read_uvarint x input
    (header_bytes, cursor) ← take cursor header_len
    roots ← decode_header_roots header_bytes
    blocks ← finish_blocks (decode_blocks (length cursor) cursor [])
    ok (record { roots = roots; blocks = blocks })

  -- The header that `encode_car` writes.
  unfoldable pub car_header : C → Ipld C F
  car_header root =
      map_ipld
        ((bytes "version", integer (pos 1)) ∷ (bytes "roots", list (of_list (link root ∷ []))) ∷ [])

  unfoldable pub encode_blocks : List (CarBlock C) → Bytes → Bytes
  encode_blocks [] output = output
  encode_blocks (b ∷ rest) output =
      let cid_bytes = x.cid_bytes b.cid in
      encode_blocks rest
        (write_uvarint (length cid_bytes + length b.payload) output ++ cid_bytes ++ b.payload)

  unfoldable pub encode_car : C → List (CarBlock C) → CoreResult Bytes
  unfolding car_header encode_blocks
  encode_car root blocks = do
    header_bytes ← dag_cbor_bytes x (car_header root)
    ok (encode_blocks blocks (write_uvarint (length header_bytes) [] ++ header_bytes))
