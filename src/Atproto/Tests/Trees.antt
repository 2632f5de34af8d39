-- ===== src/Atproto/Tests/Trees.antt =====
-- The witnesses about trees, snapshots and commits.
use dais.Base.{
  ℕ, Bytes, bytes, List, [], ◌∷◌, ◌++◌, none, some, ok, ◌≡◌, refl, arith, collect, text_cmp,
  text_eq,
}
use dais.Base.Run.{return, Returns}
use dais.Ipld.{Ipld}
use dais.Sample.{sample, sample-IsLawful}
use dais.Atproto.Cbor.{dag_cbor_cid, dag_cbor_bytes, map_ipld}
use dais.Atproto.Car.{CarBlock, CarFile}
use dais.Atproto.Mst.{mst_get, decode_commit, decode_mst_node}
use dais.Atproto.Mst.Faults.{mst_get_loop}
use dais.Atproto.Tree.{
  RepoRecordBlock, mst_subtree, node_entries, node_ipld, entry_ipld, node_block, to_block,
}
use dais.Atproto.Tree.Lookup.{lookup}
use dais.Atproto.Tree.Entries.{decode_mst_node-node_ipld}
use dais.Atproto.Tree.Keys.{read_keys, paths_of, read_keys-node_block}
use dais.Atproto.Tree.Search.{mst_get-mst_subtree}
use dais.Atproto.Tree.Depth.{mst_subtree-Returns}
use dais.Atproto.Repo.Snapshot.{
  repo_record_block, repo_tree, commit_block, sort_by_path, repo_snapshot_from_records,
}
use dais.Atproto.Repo.Snapshot.Sorting.{repo_snapshot_from_records-Returns}
use dais.Atproto.RecordProof.RoundTrip.{decode_commit-commit_block}
use dais.Atproto.Tests.{signer, records, identity, blocks, tree, commit, tree_built, commit_signed}

repo_snapshot_from_records-Returns_example :
    Returns (repo_snapshot_from_records sample signer identity (bytes "r") (bytes "s") records)
repo_snapshot_from_records-Returns_example =
    repo_snapshot_from_records-Returns sample signer identity (bytes "r") (bytes "s") records

-- Two records, the second of which lies two levels deeper.
abbrev high : RepoRecordBlock Bytes
high = record { path = bytes "f/1"; cid = 1 ∷ []; payload = bytes "one" }

abbrev deep : RepoRecordBlock Bytes
deep = record { path = 0x0c ∷ bytes "/2"; cid = 2 ∷ []; payload = bytes "two" }

mst_subtree-Returns_example : Returns (mst_subtree sample 3 (deep ∷ high ∷ []) 0)
unfolding sample dais.Atproto.Tree.repo_key_depth dais.Atproto.Tree.leading_zeros
    dais.Atproto.Tree.zero_bits bytes
mst_subtree-Returns_example =
    mst_subtree-Returns sample 3 (deep ∷ high ∷ []) 0 (omega arith)
      ((omega arith, omega arith), ((omega arith, omega arith), tt))

-- The archive that holds the blocks of the tree.
abbrev block_map : List (CarBlock Bytes) → List (Bytes × Bytes)
block_map [] = []
block_map (b ∷ rest) = (b.cid, b.payload) ∷ block_map rest

abbrev tree_archive : CarFile Bytes
tree_archive = record { roots = []; blocks = block_map tree.1 }

mst_get-mst_subtree_example :
    mst_get sample 3 tree_archive tree.0 (bytes "f/1")
    ≡ return (lookup (sort_by_path blocks) (bytes "f/1"))
unfolding collect repo_record_block dais.Base.is_blank bytes
    dais.Atproto.Repo.Records.record_value_to_ipld dais.Json.as_str dais.Json.get text_eq
    dais.Atproto.Repo.Records.follow_record_ipld dag_cbor_bytes sample map_ipld dag_cbor_cid
    dais.Ipld.insert dais.Ipld.insert_all text_cmp dais.Json.get_member repo_tree sort_by_path
    dais.Atproto.Repo.Snapshot.insert_sorted mst_subtree dais.Atproto.Tree.mst_level
    dais.Atproto.Tree.split_level dais.Atproto.Tree.repo_key_depth
    dais.Atproto.Repo.Snapshot.min_depth dais.Atproto.Repo.Snapshot.max_depth
    dais.Atproto.Tree.common_prefix_len dais.Atproto.Tree.entry_ipld dais.Atproto.Tree.leading_zeros
    dais.Atproto.Tree.mst_node_block dais.Atproto.Tree.node_block dais.Atproto.Tree.node_entries
    dais.Atproto.Tree.node_ipld dais.Atproto.Tree.subtree_of dais.Atproto.Tree.to_block
    dais.Atproto.Tree.zero_bits dais.Ipld.of_list dais.Atproto.Car.block dais.Atproto.Car.find_block
mst_get-mst_subtree_example =
    mst_get-mst_subtree sample sample-IsLawful 3 tree_archive (bytes "f/1") (sort_by_path blocks) 0
      tree.0 tree.1 tree_built (refl, (refl, (refl, (refl, (refl, tt))))) ((refl, tt), (tt, tt))
      (omega arith, (omega arith, tt))

decode_commit-commit_block_example :
    decode_commit sample (record { roots = []; blocks = block_map (commit ∷ []) }) commit.cid
    ≡ ok (record { did = bytes "did:web:a"; rev = bytes "r"; prev = none; data_root = tree.0 })
unfolding dais.Atproto.Car.block dais.Atproto.Car.find_block collect repo_record_block
    dais.Base.is_blank bytes dais.Atproto.Repo.Records.record_value_to_ipld dais.Json.as_str
    dais.Json.get text_eq dais.Atproto.Repo.Records.follow_record_ipld dag_cbor_bytes sample
    map_ipld dag_cbor_cid dais.Ipld.insert dais.Ipld.insert_all text_cmp dais.Json.get_member
    repo_tree sort_by_path dais.Atproto.Repo.Snapshot.insert_sorted mst_subtree
    dais.Atproto.Tree.mst_level dais.Atproto.Tree.split_level dais.Atproto.Tree.repo_key_depth
    dais.Atproto.Repo.Snapshot.min_depth dais.Atproto.Repo.Snapshot.max_depth
    dais.Atproto.Tree.common_prefix_len dais.Atproto.Tree.entry_ipld dais.Atproto.Tree.leading_zeros
    dais.Atproto.Tree.mst_node_block dais.Atproto.Tree.node_block dais.Atproto.Tree.node_entries
    dais.Atproto.Tree.node_ipld dais.Atproto.Tree.subtree_of dais.Atproto.Tree.to_block
    dais.Atproto.Tree.zero_bits dais.Ipld.of_list commit_block
    dais.Atproto.Repo.Snapshot.sign_commit dais.Atproto.Repo.Snapshot.commit_ipld
decode_commit-commit_block_example =
    decode_commit-commit_block sample sample-IsLawful signer identity (bytes "r") (bytes "s") tree.0
      commit (record { roots = []; blocks = block_map (commit ∷ []) }) commit_signed refl

-- A node that is its own left child.
abbrev cycle_node : Bytes
cycle_node =
    dais.Atproto.Tests.unwrap_or [] (dag_cbor_bytes sample (node_ipld sample (some (9 ∷ [])) []))

abbrev cycle : CarFile Bytes
cycle = record { roots = []; blocks = (9 ∷ [], cycle_node) ∷ [] }

node_written : dag_cbor_bytes sample (node_ipld sample (some (9 ∷ [])) []) ≡ ok cycle_node
unfolding dag_cbor_bytes sample node_ipld
node_written = refl

cycle_read :
    decode_mst_node sample cycle (9 ∷ []) ≡ ok (record { left = some (9 ∷ []); entries = [] })
unfolding dais.Atproto.Car.block dais.Atproto.Car.find_block sample text_eq collect
cycle_read =
    decode_mst_node-node_ipld sample sample-IsLawful cycle (9 ∷ []) cycle_node (some (9 ∷ [])) [] []
      refl node_written refl

mst_get_loop_example : mst_get sample 1000 cycle (9 ∷ []) (bytes "f/1") ≡ none
mst_get_loop_example = mst_get_loop sample cycle (9 ∷ []) 1000 (bytes "f/1") cycle_read

-- Two records whose paths share a front.
abbrev shared : List (RepoRecordBlock Bytes × List (RepoRecordBlock Bytes))
shared = (high, []) ∷ (record { path = bytes "f/2"; cid = 2 ∷ []; payload = bytes "two" }, []) ∷ []

abbrev shared_entries : List (Ipld Bytes ℕ)
shared_entries =
    entry_ipld sample 0 (bytes "f/1") (1 ∷ []) none
    ∷ entry_ipld sample 2 (bytes "2") (2 ∷ []) none
    ∷ []

abbrev shared_payload : Bytes
shared_payload =
    dais.Atproto.Tests.unwrap_or []
      (dag_cbor_bytes sample (node_ipld sample (some (9 ∷ [])) shared_entries))

abbrev shared_node : CarBlock Bytes
shared_node = record { cid = dag_cbor_cid sample shared_payload; payload = shared_payload }

shared_made :
    node_entries sample (λ range. none) [] shared
    ≡ return (shared_entries, to_block high ∷ record { cid = 2 ∷ []; payload = bytes "two" } ∷ [])
unfolding node_entries dais.Atproto.Tree.common_prefix_len bytes dais.Atproto.Tree.subtree_of
    to_block entry_ipld
shared_made = refl

shared_wrote : node_block sample (some (9 ∷ [])) shared_entries ≡ return shared_node
unfolding node_block dag_cbor_bytes sample node_ipld dag_cbor_cid entry_ipld bytes map_ipld
    dais.Ipld.insert dais.Ipld.insert_all text_cmp dais.Ipld.of_list
shared_wrote = refl

read_keys-node_block_example :
    read_keys sample (record { roots = []; blocks = block_map (shared_node ∷ []) }) shared_node.cid
    ≡ ok (some (9 ∷ []), paths_of shared)
unfolding dais.Atproto.Car.block dais.Atproto.Car.find_block sample text_eq bytes dag_cbor_bytes
    node_ipld dag_cbor_cid entry_ipld map_ipld dais.Ipld.insert dais.Ipld.insert_all text_cmp
    dais.Ipld.of_list
read_keys-node_block_example =
    read_keys-node_block sample sample-IsLawful (λ range. none) shared (some (9 ∷ []))
      shared_entries (to_block high ∷ record { cid = 2 ∷ []; payload = bytes "two" } ∷ [])
      shared_node (record { roots = []; blocks = block_map (shared_node ∷ []) })
      (omega arith, (omega arith, tt)) shared_made shared_wrote refl
