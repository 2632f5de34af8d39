-- ===== src/Atproto/RecordProof/Forgery.antt =====
-- What the labels of an archive are worth: a proof of absence that anyone can write.
use dais.Base.{
  ℕ, suc, Text, Bytes, List, [], ◌∷◌, none, ok, ◌≡◌, ◌≢◌, refl, arith, length, All, text_eq,
  text_eq_iff,
}
use dais.Base.Run.{return}
use dais.Formats.{Formats, IsLawful}
use dais.Atproto.Cbor.{dag_cbor_bytes}
use dais.Atproto.Car.{CarBlock, CarFile, car_header, encode_car, decode_car}
use dais.Atproto.Car.Blocks.{Holds, insert_blocks, insert_blocks-All}
use dais.Atproto.Car.RoundTrip.{Fits, FitsBlock, decode_car-encode_car}
use dais.Atproto.Mst.Faults.{mst_get_empty}
use dais.Atproto.Tree.{node_ipld}
use dais.Atproto.Tree.Entries.{decode_mst_node-node_ipld}
use dais.Atproto.Repo.{AtprotoIdentity}
use dais.Atproto.Repo.Snapshot.{commit_ipld}
use dais.Atproto.RecordProof.{absent, open_proof, verify_record_proof}
use dais.Atproto.RecordProof.RoundTrip.{decode_commit-commit_ipld}

module _ {C F N : Type 0} (x : Formats C F N) (laws : IsLawful x) (identity : AtprotoIdentity)
    (rev : Text) (signature : Bytes) (commit node : CarBlock C) (apart : commit.cid ≢ node.cid)
    (commit_written : dag_cbor_bytes x (commit_ipld x identity rev node.cid signature)
      ≡ ok commit.payload)
    (node_written : dag_cbor_bytes x (node_ipld x none []) ≡ ok node.payload) where
  forged : CarFile C
  forged = record { roots = commit.cid ∷ []; blocks = insert_blocks x (commit ∷ node ∷ []) [] }

  held : Holds x forged commit × Holds x forged node
  unfolding forged dais.Atproto.Car.block dais.Atproto.Car.find_block
  held =
      let all =
        insert_blocks-All x laws (commit ∷ node ∷ []) []
          (((λ e. absurd (apart e)), tt), (tt, tt)) in
      (all.0, all.1.0)

  -- For a repository of anyone, the archive of a commit with an arbitrary signature and of an empty
  -- node, under any two different labels, is taken as a proof that the repository has no record at
  -- any key (its blocks and its header being as short as the formats allow).
  pub verify_record_proof_forged :
      (output : Bytes) (fuel : ℕ) (collection rkey : Text)
      → encode_car x commit.cid (commit ∷ node ∷ []) ≡ ok output
      → ((header : Bytes)
          → dag_cbor_bytes x (car_header x commit.cid) ≡ ok header
          → Fits x laws (length header))
      → All (FitsBlock x laws) (commit ∷ node ∷ [])
      → verify_record_proof x (suc fuel) output identity.did collection rkey ≡ return absent
  unfolding verify_record_proof open_proof forged dais.Base.collect
      dais.Atproto.RecordProof.proof_of
  verify_record_proof_forged output fuel collection rkey written header_fits blocks_fit =
      let read =
        decode_car-encode_car x laws commit.cid (commit ∷ node ∷ []) output header_fits blocks_fit
          written in
      let committed =
        decode_commit-commit_ipld x laws identity rev node.cid signature commit.payload commit.cid
          forged commit_written held.0 in
      let empty =
        decode_mst_node-node_ipld x laws forged node.cid node.payload none [] [] held.1 node_written
          refl in
      rw (
        read,
        committed,
        (text_eq_iff identity.did identity.did).1 refl,
        mst_get_empty x forged node.cid fuel _ empty,
      )
