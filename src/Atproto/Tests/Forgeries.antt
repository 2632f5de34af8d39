-- ===== src/Atproto/Tests/Forgeries.antt =====
-- A forged proof of absence on concrete bytes.
use mathlib.Core.Path.{subst}
use dais.Base.{Bytes, bytes, [], ◌∷◌, none, ok, ◌≡◌, refl, length, ok-injective, text_cmp}
use dais.Base.Run.{return}
use dais.Sample.{sample, sample-IsLawful}
use dais.Atproto.Cbor.{dag_cbor_bytes, map_ipld}
use dais.Atproto.Varint.{write_uvarint}
use dais.Atproto.Car.{CarBlock, car_header, encode_car}
use dais.Atproto.Car.RoundTrip.{Fits}
use dais.Atproto.Tree.{node_ipld}
use dais.Atproto.Repo.Snapshot.{commit_ipld}
use dais.Atproto.RecordProof.{absent, verify_record_proof}
use dais.Atproto.RecordProof.Forgery.{verify_record_proof_forged}
use dais.Atproto.Tests.{identity, unwrap_or, fits}

abbrev commit : CarBlock Bytes
commit = record {
  cid = 1 ∷ [];
  payload =
      unwrap_or [] (dag_cbor_bytes sample (commit_ipld sample identity (bytes "r") (2 ∷ []) []));
}

abbrev node : CarBlock Bytes
node = record {
  cid = 2 ∷ [];
  payload = unwrap_or [] (dag_cbor_bytes sample (node_ipld sample none []));
}

abbrev output : Bytes
output = unwrap_or [] (encode_car sample (1 ∷ []) (commit ∷ node ∷ []))

commit_written :
    dag_cbor_bytes sample (commit_ipld sample identity (bytes "r") (2 ∷ []) []) ≡ ok commit.payload
unfolding dag_cbor_bytes sample map_ipld dais.Ipld.insert dais.Ipld.insert_all dais.Ipld.of_list
    text_cmp bytes commit_ipld
commit_written = refl

node_written : dag_cbor_bytes sample (node_ipld sample none []) ≡ ok node.payload
unfolding dag_cbor_bytes sample map_ipld dais.Ipld.insert dais.Ipld.insert_all dais.Ipld.of_list
    text_cmp bytes node_ipld
node_written = refl

output_written : encode_car sample (1 ∷ []) (commit ∷ node ∷ []) ≡ ok output
unfolding dag_cbor_bytes sample map_ipld dais.Ipld.insert dais.Ipld.insert_all dais.Ipld.of_list
    text_cmp bytes commit_ipld node_ipld encode_car car_header write_uvarint
    dais.Atproto.Varint.write_loop dais.Atproto.Car.encode_blocks
output_written = refl

verify_record_proof_forged_example :
    verify_record_proof sample 1 output identity.did (bytes "f") (bytes "1") ≡ return absent
unfolding dag_cbor_bytes sample map_ipld dais.Ipld.insert dais.Ipld.insert_all dais.Ipld.of_list
    text_cmp bytes commit_ipld node_ipld car_header
verify_record_proof_forged_example =
    verify_record_proof_forged sample sample-IsLawful identity (bytes "r") [] commit node
      (λ e. cc (e)) commit_written node_written output 0 (bytes "f") (bytes "1") output_written
      (λ header h.
        subst (λ b. Fits sample sample-IsLawful (length b)) (ok-injective h) (fits _ refl))
      (fits _ refl, (fits _ refl, tt))
