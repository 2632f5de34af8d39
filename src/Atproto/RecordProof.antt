-- ===== src/Atproto/RecordProof.antt =====
-- core/src/atproto/record_proof.rs: proving one record present or absent from a `getRecord` archive.
pub mod RoundTrip
pub mod Snapshot
pub mod Forgery
use dais.Base.{
  ℕ, Text, Bytes, bytes, List, [], ◌∷◌, ◌++◌, Option, none, some, CoreResult, invalid_at_proto, ok,
  ok_or, text_eq, not, if◌then◌else◌, ◌>>=◌, ◌>>◌,
}
use dais.Base.Run
use dais.Base.Run.{Run, done}
use dais.Formats.{Formats}
use dais.Atproto.Cbor.{invalid}
use dais.Atproto.Car.{CarFile, block, decode_car}
use dais.Atproto.Mst.{CommitData, decode_commit, mst_get}

pub data RecordProof (C : Type 0) : Type 0 where
  present : C → Bytes → RecordProof C
  absent : RecordProof C

first_root : {C : Type 0} → List C → Option C
first_root [] = none
first_root (c ∷ rest) = some c

module _ {C F N : Type 0} (x : Formats C F N) where
  unfoldable pub verify_block_hash : C → Bytes → CoreResult (Unit {0})
  verify_block_hash cid payload =
      let recomputed = x.new_v1 (x.codec cid) (x.multihash payload) in
      if not (x.cid_eq recomputed cid)
      then invalid (
          bytes "record block content does not hash to its claimed cid "
          ++ x.cid_text cid
          ++ bytes " (got "
          ++ x.cid_text recomputed
          ++ bytes ")")
      else ok tt

  -- The archive with the commit at its first root, which must be of the expected repository.
  unfoldable pub open_proof : Bytes → Text → CoreResult (CarFile C × CommitData C)
  unfolding first_root
  open_proof getrecord_car_bytes expected_did = do
    car ← decode_car x getrecord_car_bytes
    commit_cid ← ok_or (invalid_at_proto (bytes "getRecord CAR has no root")) (first_root car.roots)
    commit ← decode_commit x car commit_cid
    if not (text_eq commit.did expected_did)
        then invalid (
            bytes "getRecord proof is for repo '"
            ++ commit.did
            ++ bytes "', expected '"
            ++ expected_did
            ++ bytes "'")
        else ok (car, commit)

  unfoldable pub proof_of : CarFile C → Option C → CoreResult (RecordProof C)
  proof_of car none = ok absent
  proof_of car (some cid) = do
    record_bytes ←
        ok_or
          (invalid_at_proto (bytes "mst_get resolved a cid whose block is missing from the CAR"))
          (block x car cid)
    verify_block_hash cid record_bytes
    ok (present cid record_bytes)

  unfoldable pub verify_record_proof : ℕ → Bytes → Text → Text → Text → Run (RecordProof C)
  verify_record_proof fuel getrecord_car_bytes expected_did collection rkey =
      Run.◌>>=◌ (done (open_proof getrecord_car_bytes expected_did)) (λ opened.
        Run.◌>>=◌ (mst_get x fuel opened.0 opened.1.data_root (collection ++ bytes "/" ++ rkey))
          (λ found. done (proof_of opened.0 found)))
