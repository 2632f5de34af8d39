-- ===== src/Atproto/Repo/Snapshot.antt =====
-- `repo_snapshot_from_records` of core/src/atproto/repo.rs.
pub mod Sorting
use dais.Base.{
  is_blank, ℕ, zero, suc, ◌+◌, ◌==◌, Text, Bytes, bytes, List, [], ◌∷◌, ◌++◌, Option, none, some,
  Bool, true, false, CoreResult, invalid_at_proto, signature_error, ok, err, map_err, collect,
  ◌>>=◌, ◌>>◌, lt, eq, gt, text_cmp, ◌&&◌, ◌||◌, leb, min, max, if◌then◌else◌,
}
use dais.Base.Run
use dais.Base.Run.{Run, done, return}
use dais.Ipld.{Ipld, pos}
use dais.Json.{Value}
use dais.Formats.{Formats, Signer}
use dais.Atproto.Cbor.{invalid, map_ipld, dag_cbor_bytes, dag_cbor_cid}
use dais.Atproto.Car.{CarBlock, encode_car}
use dais.Atproto.Tree.{RepoRecordBlock, repo_key_depth, mst_subtree, node_block}
use dais.Atproto.Repo.{AtprotoIdentity, RepoSnapshot}
use dais.Atproto.Repo.Records.{record_value_to_ipld}

pub record RepoRecord (N : Type 0) : Type 0 where
  pub path : Text
  pub value : Value N

module _ {C : Type 0} where
  -- `blocks.sort_by(|left, right| left.path.cmp(&right.path))`, which is stable.
  unfoldable pub insert_sorted :
      RepoRecordBlock C → List (RepoRecordBlock C) → List (RepoRecordBlock C)
  insert_sorted r [] = r ∷ []
  insert_sorted r (s ∷ rest) = elim (text_cmp r.path s.path) [
    | gt ↦ s ∷ insert_sorted r rest
    | _ ↦ r ∷ s ∷ rest
  ]

  unfoldable pub sort_by_path : List (RepoRecordBlock C) → List (RepoRecordBlock C)
  sort_by_path [] = []
  sort_by_path (r ∷ rest) = insert_sorted r (sort_by_path rest)

module _ {C F N : Type 0} (x : Formats C F N) where
  unfoldable pub repo_record_block : RepoRecord N → CoreResult (RepoRecordBlock C)
  repo_record_block record_in =
      if is_blank record_in.path then invalid (bytes "repo record path is required") else (do
        ipld ← record_value_to_ipld x record_in.value
        payload ← dag_cbor_bytes x ipld
        ok (record { path = record_in.path; cid = dag_cbor_cid x payload; payload = payload }))

  -- `.map(depth).min().unwrap_or(0)`
  unfoldable pub min_depth : List (RepoRecordBlock C) → ℕ
  min_depth [] = 0
  min_depth (r ∷ []) = repo_key_depth x r.path
  min_depth (r ∷ s ∷ rest) = min (repo_key_depth x r.path) (min_depth (s ∷ rest))

  unfoldable pub max_depth : List (RepoRecordBlock C) → ℕ
  max_depth [] = 0
  max_depth (r ∷ rest) = max (repo_key_depth x r.path) (max_depth rest)

  -- The tree over the sorted records, and the empty node where there are none. One level more than
  -- the deepest key is fuel enough (`repo_tree-Returns`).
  unfoldable pub repo_tree : List (RepoRecordBlock C) → Run (C × List (CarBlock C))
  repo_tree [] = Run.◌>>=◌ (node_block x none []) (λ node. return (node.cid, node ∷ []))
  repo_tree (r ∷ rest) =
      mst_subtree x (suc (max_depth (r ∷ rest))) (r ∷ rest) (min_depth (r ∷ rest))

  -- The commit without its signature, and with it.
  unsigned_fields : AtprotoIdentity → Text → C → List (Text × Ipld C F)
  unsigned_fields identity rev root_cid =
      (bytes "did", Ipld.string identity.did)
      ∷ (bytes "version", Ipld.integer (pos 3))
      ∷ (bytes "rev", Ipld.string rev)
      ∷ (bytes "prev", Ipld.null)
      ∷ (bytes "data", Ipld.link root_cid)
      ∷ []

  unfoldable pub commit_ipld : AtprotoIdentity → Text → C → Bytes → Ipld C F
  unfolding unsigned_fields
  commit_ipld identity rev root_cid signature =
      map_ipld (unsigned_fields identity rev root_cid ++ (bytes "sig", Ipld.raw signature) ∷ [])

  module _ {K : Type 0} (signer : Signer K) where
    signing_key_from_secret : Text → CoreResult K
    signing_key_from_secret secret =
        map_err (λ e. signature_error (bytes "invalid signing seed: " ++ e))
          (signer.key_from_bytes (x.sha256 secret))

    -- The signature over the hash of the unsigned commit.
    unfoldable pub sign_commit : AtprotoIdentity → Text → Text → C → CoreResult Bytes
    unfolding signing_key_from_secret unsigned_fields
    sign_commit identity rev signing_secret root_cid = do
      key ← signing_key_from_secret signing_secret
      unsigned_bytes ← dag_cbor_bytes x (map_ipld (unsigned_fields identity rev root_cid))
      map_err (λ e. signature_error (bytes "commit signing failed: " ++ e))
          (signer.sign_prehash key (x.sha256 unsigned_bytes))

    -- The signed commit of a tree, as a block.
    unfoldable pub commit_block : AtprotoIdentity → Text → Text → C → CoreResult (CarBlock C)
    commit_block identity rev signing_secret root_cid = do
      signature ← sign_commit identity rev signing_secret root_cid
      payload ← dag_cbor_bytes x (commit_ipld identity rev root_cid signature)
      ok (record { cid = dag_cbor_cid x payload; payload = payload })

    -- The archive of a tree under its commit.
    unfoldable pub snapshot_of :
        AtprotoIdentity → Text → Text → C × List (CarBlock C) → CoreResult RepoSnapshot
    snapshot_of identity rev signing_secret (root_cid, car_blocks) = do
      commit ← commit_block identity rev signing_secret root_cid
      car_bytes ← encode_car x commit.cid (commit ∷ car_blocks)
      ok (record { rev = rev; commit_cid = x.cid_text commit.cid; car_bytes = car_bytes })

    unfoldable pub repo_snapshot_from_records :
        AtprotoIdentity → Text → Text → List (RepoRecord N) → Run RepoSnapshot
    repo_snapshot_from_records identity rev signing_secret records =
        Run.◌>>=◌ (done (collect repo_record_block records)) (λ blocks.
          Run.◌>>=◌ (repo_tree (sort_by_path blocks))
            (λ tree. done (snapshot_of identity rev signing_secret tree)))
