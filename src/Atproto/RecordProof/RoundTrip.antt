-- ===== src/Atproto/RecordProof/RoundTrip.antt =====
-- A snapshot of the repository proves each of its records, and the absence of any other.
use dais.Base.{
  suc, ◌<◌, Text, Bytes, bytes, List, [], ◌∷◌, ◌++◌, Option, none, some, ok, ◌≡◌, refl, ap, ◌∙◌,
  arith, length, All, text_eq, text_eq_iff, text_cmp, if◌then◌else◌, >>=-eq-ok, Bool-cases, inl,
  inr,
}
use dais.Base.Run.{return}
use dais.Ipld.{get, insert, insert_all}
use dais.Formats.{Formats, Signer, IsLawful}
use dais.Atproto.Cbor.{
  dag_cbor_bytes, dag_cbor_cid, map_ipld, require_map, require_string, require_link, optional_link,
  from_slice-dag_cbor_bytes,
}
use dais.Atproto.Car.{CarFile, CarBlock, block, decode_car, encode_car, car_header}
use dais.Atproto.Car.Blocks.{Holds, Consistent, insert_blocks, insert_blocks-All}
use dais.Atproto.Car.RoundTrip.{Fits, FitsBlock, decode_car-encode_car}
use dais.Atproto.Mst.{decode_commit, mst_get}
use dais.Atproto.Tree.{RepoRecordBlock, to_block, mst_subtree}
use dais.Atproto.Tree.Lookup.{lookup, IsSorted}
use dais.Atproto.Tree.Search.{mst_get-mst_subtree}
use dais.Atproto.Tree.Contents.{mst_subtree-All}
use dais.Atproto.Repo.{AtprotoIdentity}
use dais.Atproto.Repo.Snapshot.{
  commit_ipld, commit_block, sign_commit, repo_tree, max_depth, min_depth,
}
use dais.Atproto.Repo.Snapshot.Sorting.{repo_tree-mst_subtree}
use dais.Atproto.RecordProof.{
  RecordProof, present, absent, verify_block_hash, open_proof, proof_of, verify_record_proof,
}
use mathlib.Core.Path.{subst}

module _ {C : Type 0} where
  -- The first record at a path.
  unfoldable pub find : List (RepoRecordBlock C) → Bytes → Option (RepoRecordBlock C)
  find [] key = none
  find (r ∷ rest) key = if text_eq r.path key then some r else find rest key

  cid_of : Option (RepoRecordBlock C) → Option C
  cid_of none = none
  cid_of (some r) = some r.cid

  -- What a reader should learn of a record.
  unfoldable pub expected : Option (RepoRecordBlock C) → RecordProof C
  expected none = absent
  expected (some r) = present r.cid r.payload

  lookup-find : (rs : List (RepoRecordBlock C)) (key : Bytes) → lookup rs key ≡ cid_of (find rs key)
  unfolding lookup find cid_of
  lookup-find [] key = refl
  lookup-find (r ∷ rest) key = ground (arith, lookup-find rest key)

  find-All :
      (P : RepoRecordBlock C → Type 0) (rs : List (RepoRecordBlock C)) (key : Bytes)
      (r : RepoRecordBlock C)
      → All P rs
      → find rs key ≡ some r
      → P r
  unfolding find
  find-All P [] key r h e = cc
  find-All P (s ∷ rest) key r h e = elim (Bool-cases (text_eq s.path key)) [
    | inl here ↦ let same : s ≡ r = ground (arith, e, here) in subst P same h.0
    | inr there ↦
        let later : find rest key ≡ some r = ground (arith, e, there) in
        find-All P rest key r h.1 later
  ]

module _ {C F N : Type 0} (x : Formats C F N) where
  -- A record's block is named by the hash of its bytes, as `repo_record_block` names it.
  abbrev pub IsNamed : RepoRecordBlock C → Type 0
  IsNamed r = r.cid ≡ dag_cbor_cid x r.payload

module _ {C F N : Type 0} (x : Formats C F N) (laws : IsLawful x) where
  -- A commit is read as it was written, whatever its signature.
  pub decode_commit-commit_ipld :
      (identity : AtprotoIdentity) (rev : Text) (root : C) (signature payload : Bytes) (cid : C)
      (car : CarFile C)
      → dag_cbor_bytes x (commit_ipld x identity rev root signature) ≡ ok payload
      → block x car cid ≡ some payload
      → decode_commit x car cid
        ≡ ok (record { did = identity.did; rev = rev; prev = none; data_root = root })
  unfolding decode_commit commit_ipld map_ipld insert_all insert get require_map require_string
      require_link optional_link text_cmp text_eq bytes
  decode_commit-commit_ipld identity rev root signature payload cid car written held =
      rw (held, from_slice-dag_cbor_bytes x laws _ payload written)

module _ {C F N K : Type 0} (x : Formats C F N) (laws : IsLawful x) (signer : Signer K) where
  -- From an archive that holds it, the commit that a snapshot is signed with is read with its
  -- repository, its revision and its tree.
  pub decode_commit-commit_block :
      (identity : AtprotoIdentity) (rev signing_secret : Text) (root : C) (commit : CarBlock C)
      (car : CarFile C)
      → commit_block x signer identity rev signing_secret root ≡ ok commit
      → Holds x car commit
      → decode_commit x car commit.cid
        ≡ ok (record { did = identity.did; rev = rev; prev = none; data_root = root })
  unfolding commit_block
  decode_commit-commit_block identity rev signing_secret root commit car made held =
      let (signature, e₁, e₁') =
        >>=-eq-ok (sign_commit x signer identity rev signing_secret root) _ made in
      let (payload, e₂, e₂') =
        >>=-eq-ok (dag_cbor_bytes x (commit_ipld x identity rev root signature)) _ e₁' in
      let same : commit.payload ≡ payload = ground (arith, e₂') in
      decode_commit-commit_ipld x laws identity rev root signature commit.payload commit.cid car
        (rw same e₂) held

  verify_block_hash_lem :
      (payload : Bytes) → verify_block_hash x (dag_cbor_cid x payload) payload ≡ ok tt
  unfolding verify_block_hash dag_cbor_cid
  verify_block_hash_lem payload =
      rw (laws.codec-new_v1 0x71 (x.multihash payload), (laws.cid_eq_iff _ _).1 refl)

  proof_of-expected :
      (car : CarFile C) (found : Option (RepoRecordBlock C))
      → ((r : RepoRecordBlock C) → found ≡ some r → IsNamed x r × Holds x car (to_block r))
      → proof_of x car (cid_of found) ≡ ok (expected found)
  unfolding proof_of cid_of expected to_block
  proof_of-expected car none h = refl
  proof_of-expected car (some r) h =
      let (named, held) = h r refl in
      let hashed : verify_block_hash x r.cid r.payload ≡ ok tt =
        rw named (verify_block_hash_lem r.payload) in
      rw (held, hashed)

  -- The records of a tree, read back from the archive that a snapshot writes.
  module _ (identity : AtprotoIdentity) (rev signing_secret : Text)
      (records : List (RepoRecordBlock C)) (root : C) (blocks : List (CarBlock C))
      (commit : CarBlock C) (output : Bytes) (sorted : IsSorted records)
      (paths : All (λ r. length r.path < x.usize_range) records) (named : All (IsNamed x) records)
      (tree : repo_tree x records ≡ return (root, blocks))
      (signed : commit_block x signer identity rev signing_secret root ≡ ok commit)
      (written : encode_car x commit.cid (commit ∷ blocks) ≡ ok output)
      (consistent : Consistent x laws (commit ∷ blocks))
      (header_fits : (header : Bytes)
        → dag_cbor_bytes x (car_header x commit.cid) ≡ ok header
        → Fits x laws (length header))
      (blocks_fit : All (FitsBlock x laws) (commit ∷ blocks)) where
    archive : CarFile C
    archive = record { roots = commit.cid ∷ []; blocks = insert_blocks x (commit ∷ blocks) [] }

    decoded : decode_car x output ≡ ok archive
    unfolding archive
    decoded =
        decode_car-encode_car x laws commit.cid (commit ∷ blocks) output header_fits blocks_fit
          written

    held : All (Holds x archive) (commit ∷ blocks)
    unfolding archive block
    held = insert_blocks-All x laws (commit ∷ blocks) [] consistent

    built :
        mst_subtree x (suc (max_depth x records)) records (min_depth x records)
        ≡ return (root, blocks)
    built = rw (repo_tree-mst_subtree x records) at tree

    found :
        (key : Bytes)
        → mst_get x (suc (max_depth x records)) archive root key
          ≡ return (cid_of (find records key))
    found key =
        mst_get-mst_subtree x laws (suc (max_depth x records)) archive key records
          (min_depth x records) root blocks built held.1 sorted paths
        ∙ ap return (lookup-find records key)

    record_facts :
        (key : Bytes) (r : RepoRecordBlock C)
        → find records key ≡ some r
        → IsNamed x r × Holds x archive (to_block r)
    record_facts key r e = (
      find-All (IsNamed x) records key r named e,
      find-All (λ s. Holds x archive (to_block s)) records key r
          (mst_subtree-All x (Holds x archive) (suc (max_depth x records)) records
            (min_depth x records) root blocks built held.1)
          e,
    )

    opened :
        open_proof x output identity.did
        ≡ ok (archive, record { did = identity.did; rev = rev; prev = none; data_root = root })
    unfolding open_proof archive
    opened = rw (
      decoded,
      decode_commit-commit_block identity rev signing_secret root commit archive signed held.0,
      (text_eq_iff identity.did identity.did).1 refl,
    )

    -- For every key of the repository, `verify_record_proof` on the written archive answers with
    -- the record's CID and bytes, or that there is none.
    pub verify_record_proof-snapshot :
        (collection rkey : Text)
        → verify_record_proof x (suc (max_depth x records)) output identity.did collection rkey
          ≡ return (expected (find records (collection ++ bytes "/" ++ rkey)))
    unfolding verify_record_proof
    verify_record_proof-snapshot collection rkey =
        let key = collection ++ bytes "/" ++ rkey in
        rw (opened, found key, proof_of-expected archive (find records key) (record_facts key))
