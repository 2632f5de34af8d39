-- ===== src/Atproto/Tests/Archives.antt =====
-- The witnesses about numbers and archives.
use mathlib.Core.Path.{subst}
use dais.Base.{
  ◌+◌, ◌^◌, text_cmp, Bytes, bytes, List, [], ◌∷◌, ◌++◌, none, ok, ◌≡◌, ◌≢◌, refl, arith, length,
  ok-injective,
}
use dais.Sample.{sample, sample-IsLawful}
use dais.Atproto.Cbor.{invalid, dag_cbor_bytes, map_ipld}
use dais.Atproto.Varint.{write_uvarint, read_uvarint}
use dais.Atproto.Varint.RoundTrip.{read-write_uvarint, read-write_uvarint_too_large}
use dais.Atproto.Car.{
  CarBlock, CarFile, car_header, encode_car, decode_car, decode_blocks, find_block, insert_block,
}
use dais.Atproto.Car.Sections.{decode_blocks-ne-none}
use dais.Atproto.Car.Blocks.{insert_blocks}
use dais.Atproto.Car.RoundTrip.{Fits, decode_car-encode_car}
use dais.Atproto.Tests.{unwrap_or, fits}

read-write_uvarint_example : read_uvarint sample (write_uvarint 300 [] ++ 7 ∷ []) ≡ ok (300, 7 ∷ [])
unfolding sample
read-write_uvarint_example = read-write_uvarint sample 300 (7 ∷ []) (omega arith) (omega arith)

read-write_uvarint_too_large_example :
    read_uvarint sample (write_uvarint (2 ^ 63 + 5) [] ++ [])
    ≡ invalid (bytes "CAR varint is too large")
read-write_uvarint_too_large_example =
    read-write_uvarint_too_large sample (2 ^ 63 + 5) [] (omega arith) (omega arith)

decode_blocks-ne-none_example : decode_blocks sample 4 (3 ∷ 1 ∷ 9 ∷ 5 ∷ []) [] ≢ none
decode_blocks-ne-none_example = decode_blocks-ne-none sample 4 (3 ∷ 1 ∷ 9 ∷ 5 ∷ []) [] (omega arith)

-- An archive whose two blocks share a CID.
abbrev two_blocks : List (CarBlock Bytes)
two_blocks =
    record { cid = 9 ∷ []; payload = bytes "one" }
    ∷ record { cid = 9 ∷ []; payload = bytes "two" }
    ∷ []

abbrev archive : Bytes
archive = unwrap_or [] (encode_car sample (9 ∷ []) two_blocks)

archive_written : encode_car sample (9 ∷ []) two_blocks ≡ ok archive
unfolding encode_car sample car_header dag_cbor_bytes map_ipld write_uvarint
    dais.Atproto.Varint.write_loop dais.Atproto.Car.encode_blocks bytes
archive_written = refl

decode_car-encode_car_example :
    decode_car sample archive
    ≡ ok (record { roots = (9 ∷ []) ∷ []; blocks = insert_blocks sample two_blocks [] })
unfolding sample bytes car_header dag_cbor_bytes map_ipld dais.Ipld.insert dais.Ipld.insert_all
    dais.Ipld.of_list text_cmp
decode_car-encode_car_example =
    decode_car-encode_car sample sample-IsLawful (9 ∷ []) two_blocks archive
      (λ header h.
        subst (λ b. Fits sample sample-IsLawful (length b)) (ok-injective h) (fits _ refl))
      (fits _ refl, (fits _ refl, tt)) archive_written
