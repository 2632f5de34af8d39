-- ===== src/Atproto/RecordProof/Snapshot.antt =====
-- The whole way of a repository: `repo_snapshot_from_records` writes an archive, and
-- `verify_record_proof` reads each of the records back from it.
use dais.Base.{
  is_blank, suc, ◌<◌, Text, Bytes, bytes, List, [], ◌∷◌, ◌++◌, some, ok, ◌≡◌, ◌≢◌, refl, sym, ◌∙◌,
  ap, arith, length, All, CoreResult, text_eq, text_eq_iff, Bool-cases, inl, inr, collect,
  >>=-eq-ok, if◌then◌else◌, ok-injective, ◌>>=◌,
}
use mathlib.Core.Path.{subst}
use dais.Base.Run.{return, done-injective}
use dais.Formats.{Formats, Signer, IsLawful}
use dais.Atproto.Cbor.{dag_cbor_bytes, dag_cbor_cid}
use dais.Atproto.Car.{CarBlock, car_header, encode_car}
use dais.Atproto.Car.Blocks.{Consistent}
use dais.Atproto.Car.RoundTrip.{Fits, FitsBlock}
use dais.Atproto.Tree.{RepoRecordBlock}
use dais.Atproto.Repo.{AtprotoIdentity, RepoSnapshot}
use dais.Atproto.Repo.Records.{record_value_to_ipld}
use dais.Atproto.Repo.Snapshot.{
  RepoRecord, repo_record_block, insert_sorted, sort_by_path, max_depth, repo_tree, commit_block,
  snapshot_of, repo_snapshot_from_records,
}
use dais.Atproto.Repo.Snapshot.Sorting.{IsDistinct, sort_by_path-All, sort_by_path-IsSorted}
use dais.Atproto.RecordProof.{verify_record_proof}
use dais.Atproto.RecordProof.RoundTrip.{find, expected, IsNamed, verify_record_proof-snapshot}

module _ {C : Type 0} where
  find-insert_sorted :
      (r : RepoRecordBlock C) (rs : List (RepoRecordBlock C)) (key : Bytes)
      → All (λ s. s.path ≢ r.path) rs
      → find (insert_sorted r rs) key ≡ (if text_eq r.path key then some r else find rs key)
  unfolding find insert_sorted
  find-insert_sorted r [] key fresh = refl
  find-insert_sorted r (s ∷ rest) key fresh = ground (
    arith,
    fresh.0,
    text_eq_iff r.path key,
    text_eq_iff s.path key,
    find-insert_sorted r rest key fresh.1,
  )

  -- Sorting records of distinct paths leaves what is found at each path.
  pub find-sort_by_path :
      (rs : List (RepoRecordBlock C)) (key : Bytes)
      → IsDistinct rs
      → find (sort_by_path rs) key ≡ find rs key
  unfolding find sort_by_path
  find-sort_by_path [] key h = refl
  find-sort_by_path (r ∷ rest) key h =
      find-insert_sorted r (sort_by_path rest) key
        (sort_by_path-All (λ s. s.path ≢ r.path) rest h.0)
      ∙ rw (find-sort_by_path rest key h.1) refl

module _ {C F N : Type 0} (x : Formats C F N) where
  block_of : RepoRecord N → CoreResult (RepoRecordBlock C)
  block_of r = do
    ipld ← record_value_to_ipld x r.value
    payload ← dag_cbor_bytes x ipld
    ok (record { path = r.path; cid = dag_cbor_cid x payload; payload = payload })

  filled :
      (r : RepoRecord N) (b : RepoRecordBlock C) → repo_record_block x r ≡ ok b → block_of r ≡ ok b
  unfolding repo_record_block block_of
  filled r b h = elim (Bool-cases (is_blank r.path)) [
    | inl e ↦ let h' = (rw e at h) in cc (h')
    | inr e ↦ (rw e at h)
  ]

  -- A record's block keeps its path, and is named by its bytes.
  repo_record_block-IsNamed :
      (r : RepoRecord N) (b : RepoRecordBlock C) → repo_record_block x r ≡ ok b → IsNamed x b
  unfolding block_of
  repo_record_block-IsNamed r b h =
      let (ipld, e, e') = >>=-eq-ok (record_value_to_ipld x r.value) _ (filled r b h) in
      let (payload, k, k') = >>=-eq-ok (dag_cbor_bytes x ipld) _ e' in
      let same = ok-injective k' in
      ap (λ s. s.cid) (sym same) ∙ ap (λ s. dag_cbor_cid x s.payload) same

  collect-IsNamed :
      (rs : List (RepoRecord N)) (bs : List (RepoRecordBlock C))
      → collect (repo_record_block x) rs ≡ ok bs
      → All (IsNamed x) bs
  unfolding collect
  collect-IsNamed [] bs h = let e = ok-injective h in subst (All (IsNamed x)) e tt
  collect-IsNamed (r ∷ rest) bs h =
      let (b, e, e') = >>=-eq-ok (repo_record_block x r) _ h in
      let (later, k, k') = >>=-eq-ok (collect (repo_record_block x) rest) _ e' in
      subst (All (IsNamed x)) (ok-injective k')
        (repo_record_block-IsNamed r b e, collect-IsNamed rest later k)

module _ {C F N K : Type 0} (x : Formats C F N) (signer : Signer K) where
  -- The archive of a snapshot is the one that `encode_car` writes.
  encode_car-snapshot :
      (identity : AtprotoIdentity) (rev signing_secret : Text) (records : List (RepoRecord N))
      (blocks : List (RepoRecordBlock C)) (root : C) (nodes : List (CarBlock C))
      (commit : CarBlock C) (snapshot : RepoSnapshot)
      → collect (repo_record_block x) records ≡ ok blocks
      → repo_tree x (sort_by_path blocks) ≡ return (root, nodes)
      → commit_block x signer identity rev signing_secret root ≡ ok commit
      → repo_snapshot_from_records x signer identity rev signing_secret records ≡ return snapshot
      → encode_car x commit.cid (commit ∷ nodes) ≡ ok snapshot.car_bytes
  unfolding repo_snapshot_from_records snapshot_of
  encode_car-snapshot identity rev signing_secret records blocks root nodes commit snapshot read
        built signed h =
      let made : snapshot_of x signer identity rev signing_secret (root, nodes) ≡ ok snapshot =
        done-injective _ _ (rw (read, built) at h) in
      let (c, e, e') = >>=-eq-ok (commit_block x signer identity rev signing_secret root) _ made in
      let same : c ≡ commit = ok-injective (sym e ∙ signed) in
      let (output, k, k') = >>=-eq-ok (encode_car x c.cid (c ∷ nodes)) _ e' in
      subst (λ b. encode_car x b.cid (b ∷ nodes) ≡ ok snapshot.car_bytes) same
        (k ∙ ap (λ s. ok s.car_bytes) (ok-injective k'))

module _ {C F N K : Type 0} (x : Formats C F N) (laws : IsLawful x) (signer : Signer K) where
  -- A snapshot of records at distinct paths proves each of them, with the CID and the bytes of its
  -- block, and the absence of a record at any other key. The conditions: the blocks of one CID are
  -- one block, and paths, blocks and header are as short as the formats allow.
  pub verify_record_proof-repo_snapshot :
      (identity : AtprotoIdentity) (rev signing_secret : Text) (records : List (RepoRecord N))
      (blocks : List (RepoRecordBlock C)) (root : C) (nodes : List (CarBlock C))
      (commit : CarBlock C) (snapshot : RepoSnapshot) (collection rkey : Text)
      → collect (repo_record_block x) records ≡ ok blocks
      → repo_tree x (sort_by_path blocks) ≡ return (root, nodes)
      → commit_block x signer identity rev signing_secret root ≡ ok commit
      → repo_snapshot_from_records x signer identity rev signing_secret records ≡ return snapshot
      → IsDistinct blocks
      → All (λ r. length r.path < x.usize_range) blocks
      → Consistent x laws (commit ∷ nodes)
      → ((header : Bytes)
          → dag_cbor_bytes x (car_header x commit.cid) ≡ ok header
          → Fits x laws (length header))
      → All (FitsBlock x laws) (commit ∷ nodes)
      → verify_record_proof x
          (suc (max_depth x (sort_by_path blocks)))
          snapshot.car_bytes
          identity.did
          collection
          rkey
        ≡ return (expected (find blocks (collection ++ bytes "/" ++ rkey)))
  verify_record_proof-repo_snapshot identity rev signing_secret records blocks root nodes commit
        snapshot collection rkey read built signed made distinct paths consistent header_fits
        blocks_fit =
      let output =
        encode_car-snapshot x signer identity rev signing_secret records blocks root nodes commit
          snapshot read built signed made in
      verify_record_proof-snapshot x laws signer identity rev signing_secret (sort_by_path blocks)
        root nodes commit snapshot.car_bytes (sort_by_path-IsSorted blocks distinct)
        (sort_by_path-All (λ r. length r.path < x.usize_range) blocks paths)
        (sort_by_path-All (IsNamed x) blocks (collect-IsNamed x records blocks read)) built signed
        output consistent header_fits blocks_fit collection rkey
      ∙ ap (λ f. return (expected f))
          (find-sort_by_path blocks (collection ++ bytes "/" ++ rkey) distinct)
