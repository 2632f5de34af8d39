-- ===== src/Atproto/Tests.antt =====
-- Runs of the AT Protocol code on concrete archives, trees and records, in the formats of `sample`.
mod Archives
mod Forgeries
mod Contents
mod Commits
mod Trees
use dais.Base.{
  ℕ, zero, suc, ◌+◌, ◌^◌, ◌<◌, ◌≤◌, Text, Bytes, bytes, List, [], ◌∷◌, ◌++◌, Option, none, some,
  Bool, true, false, CoreResult, ok, ok-injective, ltb, err, ◌≡◌, refl, arith, All, length, collect,
  text_eq, text_cmp, lt, Result,
}
use mathlib.Core.Path.{subst}
use dais.Base.Run
use dais.Base.Run.{Run, done, return}
use dais.Ipld.{Ipld}
use dais.Json.{Value, Values, Members}
use dais.Formats.{Formats, Signer, IsLawful}
use dais.Sample.{sample, sample-IsLawful}
use dais.Atproto.Cbor.{dag_cbor_bytes, dag_cbor_cid, map_ipld}
use dais.Atproto.Varint.{write_uvarint, read_uvarint}
use dais.Atproto.Car.{CarBlock, CarFile, car_header, encode_car, decode_car}
use dais.Atproto.Car.Blocks.{Agrees, Consistent}
use dais.Atproto.Car.RoundTrip.{Fits, FitsBlock}
use dais.Atproto.RecordProof.{verify_record_proof}
use dais.Atproto.RecordProof.RoundTrip.{find, expected}
use dais.Atproto.Tree.{RepoRecordBlock, mst_subtree}
use dais.Atproto.Repo.{AtprotoIdentity, RepoSnapshot}
use dais.Atproto.Repo.Snapshot.{
  RepoRecord, repo_record_block, sort_by_path, repo_tree, commit_block, repo_snapshot_from_records,
}
use dais.Atproto.RecordProof.Snapshot.{verify_record_proof-repo_snapshot}

-- A key is its seed's hash; a signature is the hash that is signed.
abbrev pub signer : Signer Bytes
signer = record { key_from_bytes = λ b. ok b; sign_prehash = λ key hash. ok hash }

abbrev pub unwrap_or : {A : Type 0} → A → CoreResult A → A
unwrap_or a (ok b) = b
unwrap_or a (err e) = a

abbrev pub run_or : {A : Type 0} → A → Run A → A
run_or a (some (ok b)) = b
run_or a o = a

abbrev pub follow_value : Value ℕ
follow_value = Value.object (
    Members.member (bytes "$type") (Value.string (bytes "app.bsky.graph.follow"))
      (Members.member (bytes "subject") (Value.string (bytes "did:web:b")) Members.end))

-- The second path starts with a byte of four zero bits: its key lies two levels deeper.
abbrev pub records : List (RepoRecord ℕ)
records =
    record { path = bytes "f/1"; value = follow_value }
    ∷ record { path = 0x0c ∷ bytes "/2"; value = follow_value }
    ∷ []

abbrev pub identity : AtprotoIdentity
identity = record { did = bytes "did:web:a"; handle = bytes "a"; pds_hostname = bytes "pds.a" }

abbrev pub blocks : List (RepoRecordBlock Bytes)
blocks = unwrap_or [] (collect (repo_record_block sample) records)

abbrev pub tree : Bytes × List (CarBlock Bytes)
tree = run_or ([], []) (repo_tree sample (sort_by_path blocks))

abbrev pub no_block : CarBlock Bytes
no_block = record { cid = []; payload = [] }

abbrev pub commit : CarBlock Bytes
commit = unwrap_or no_block (commit_block sample signer identity (bytes "r") (bytes "s") tree.0)

abbrev no_snapshot : RepoSnapshot
no_snapshot = record { rev = []; commit_cid = []; car_bytes = [] }

abbrev snapshot : RepoSnapshot
snapshot =
    run_or no_snapshot
      (repo_snapshot_from_records sample signer identity (bytes "r") (bytes "s") records)

-- Every block of `sample` carries what its CID hashes, so blocks of one CID agree.
agrees :
    (a : CarBlock Bytes) (bs : List (CarBlock Bytes))
    → a.cid ≡ 0x71 ∷ a.payload
    → All (λ b. b.cid ≡ 0x71 ∷ b.payload) bs
    → All (Agrees sample sample-IsLawful a) bs
agrees a [] h hs = tt
agrees a (b ∷ rest) h (k, hs) = ((λ e. cc (e, h, k)), agrees a rest h hs)

pub consistent :
    (bs : List (CarBlock Bytes))
    → All (λ b. b.cid ≡ 0x71 ∷ b.payload) bs
    → Consistent sample sample-IsLawful bs
consistent [] hs = tt
consistent (b ∷ rest) (h, hs) = (agrees b rest h hs, consistent rest hs)

pub fits : (n : ℕ) → ltb n (2 ^ 32) ≡ true → Fits sample sample-IsLawful n
unfolding sample
fits n h = (ground arith, ground arith)

pub records_read : collect (repo_record_block sample) records ≡ ok blocks
unfolding collect repo_record_block dais.Base.is_blank bytes
    dais.Atproto.Repo.Records.record_value_to_ipld dais.Json.as_str dais.Json.get text_eq
    dais.Atproto.Repo.Records.follow_record_ipld dag_cbor_bytes sample map_ipld dag_cbor_cid
    dais.Ipld.insert dais.Ipld.insert_all text_cmp dais.Json.get_member
records_read = refl

pub tree_built : repo_tree sample (sort_by_path blocks) ≡ return tree
unfolding collect repo_record_block dais.Base.is_blank bytes
    dais.Atproto.Repo.Records.record_value_to_ipld dais.Json.as_str dais.Json.get text_eq
    dais.Atproto.Repo.Records.follow_record_ipld dag_cbor_bytes sample map_ipld dag_cbor_cid
    dais.Ipld.insert dais.Ipld.insert_all text_cmp dais.Json.get_member repo_tree sort_by_path
    dais.Atproto.Repo.Snapshot.insert_sorted mst_subtree dais.Atproto.Tree.mst_level
    dais.Atproto.Tree.split_level dais.Atproto.Tree.repo_key_depth
    dais.Atproto.Repo.Snapshot.min_depth dais.Atproto.Repo.Snapshot.max_depth
    dais.Atproto.Tree.common_prefix_len dais.Atproto.Tree.entry_ipld dais.Atproto.Tree.leading_zeros
    dais.Atproto.Tree.mst_node_block dais.Atproto.Tree.node_block dais.Atproto.Tree.node_entries
    dais.Atproto.Tree.node_ipld dais.Atproto.Tree.subtree_of dais.Atproto.Tree.to_block
    dais.Atproto.Tree.zero_bits dais.Ipld.of_list
tree_built = refl

pub commit_signed : commit_block sample signer identity (bytes "r") (bytes "s") tree.0 ≡ ok commit
unfolding collect repo_record_block dais.Base.is_blank bytes
    dais.Atproto.Repo.Records.record_value_to_ipld dais.Json.as_str dais.Json.get text_eq
    dais.Atproto.Repo.Records.follow_record_ipld dag_cbor_bytes sample map_ipld dag_cbor_cid
    dais.Ipld.insert dais.Ipld.insert_all text_cmp dais.Json.get_member repo_tree sort_by_path
    dais.Atproto.Repo.Snapshot.insert_sorted mst_subtree dais.Atproto.Tree.mst_level
    dais.Atproto.Tree.split_level dais.Atproto.Tree.repo_key_depth
    dais.Atproto.Repo.Snapshot.min_depth dais.Atproto.Repo.Snapshot.max_depth
    dais.Atproto.Tree.common_prefix_len dais.Atproto.Tree.entry_ipld dais.Atproto.Tree.leading_zeros
    dais.Atproto.Tree.mst_node_block dais.Atproto.Tree.node_block dais.Atproto.Tree.node_entries
    dais.Atproto.Tree.node_ipld dais.Atproto.Tree.subtree_of dais.Atproto.Tree.to_block
    dais.Atproto.Tree.zero_bits dais.Ipld.of_list commit_block
    dais.Atproto.Repo.Snapshot.sign_commit dais.Atproto.Repo.Snapshot.commit_ipld
commit_signed = refl

snapshot_made :
    repo_snapshot_from_records sample signer identity (bytes "r") (bytes "s") records
    ≡ return snapshot
unfolding collect repo_record_block dais.Base.is_blank bytes
    dais.Atproto.Repo.Records.record_value_to_ipld dais.Json.as_str dais.Json.get text_eq
    dais.Atproto.Repo.Records.follow_record_ipld dag_cbor_bytes sample map_ipld dag_cbor_cid
    dais.Ipld.insert dais.Ipld.insert_all text_cmp dais.Json.get_member repo_tree sort_by_path
    dais.Atproto.Repo.Snapshot.insert_sorted mst_subtree dais.Atproto.Tree.mst_level
    dais.Atproto.Tree.split_level dais.Atproto.Tree.repo_key_depth
    dais.Atproto.Repo.Snapshot.min_depth dais.Atproto.Repo.Snapshot.max_depth
    dais.Atproto.Tree.common_prefix_len dais.Atproto.Tree.entry_ipld dais.Atproto.Tree.leading_zeros
    dais.Atproto.Tree.mst_node_block dais.Atproto.Tree.node_block dais.Atproto.Tree.node_entries
    dais.Atproto.Tree.node_ipld dais.Atproto.Tree.subtree_of dais.Atproto.Tree.to_block
    dais.Atproto.Tree.zero_bits dais.Ipld.of_list commit_block
    dais.Atproto.Repo.Snapshot.sign_commit dais.Atproto.Repo.Snapshot.commit_ipld
    repo_snapshot_from_records dais.Atproto.Repo.Snapshot.snapshot_of encode_car car_header
    dais.Atproto.Car.encode_blocks write_uvarint dais.Atproto.Varint.write_loop
snapshot_made = refl

hashes : All (λ b. b.cid ≡ 0x71 ∷ b.payload) (commit ∷ tree.1)
unfolding collect repo_record_block dais.Base.is_blank bytes
    dais.Atproto.Repo.Records.record_value_to_ipld dais.Json.as_str dais.Json.get text_eq
    dais.Atproto.Repo.Records.follow_record_ipld dag_cbor_bytes sample map_ipld dag_cbor_cid
    dais.Ipld.insert dais.Ipld.insert_all text_cmp dais.Json.get_member repo_tree sort_by_path
    dais.Atproto.Repo.Snapshot.insert_sorted mst_subtree dais.Atproto.Tree.mst_level
    dais.Atproto.Tree.split_level dais.Atproto.Tree.repo_key_depth
    dais.Atproto.Repo.Snapshot.min_depth dais.Atproto.Repo.Snapshot.max_depth
    dais.Atproto.Tree.common_prefix_len dais.Atproto.Tree.entry_ipld dais.Atproto.Tree.leading_zeros
    dais.Atproto.Tree.mst_node_block dais.Atproto.Tree.node_block dais.Atproto.Tree.node_entries
    dais.Atproto.Tree.node_ipld dais.Atproto.Tree.subtree_of dais.Atproto.Tree.to_block
    dais.Atproto.Tree.zero_bits dais.Ipld.of_list commit_block
    dais.Atproto.Repo.Snapshot.sign_commit dais.Atproto.Repo.Snapshot.commit_ipld
hashes = (refl, (refl, (refl, (refl, (refl, (refl, tt))))))

verify_record_proof-repo_snapshot_example :
    verify_record_proof sample 3 snapshot.car_bytes (bytes "did:web:a") (bytes "f") (bytes "1")
    ≡ return (expected (find blocks (bytes "f/1")))
unfolding collect repo_record_block dais.Base.is_blank bytes
    dais.Atproto.Repo.Records.record_value_to_ipld dais.Json.as_str dais.Json.get text_eq
    dais.Atproto.Repo.Records.follow_record_ipld dag_cbor_bytes sample map_ipld dag_cbor_cid
    dais.Ipld.insert dais.Ipld.insert_all text_cmp dais.Json.get_member repo_tree sort_by_path
    dais.Atproto.Repo.Snapshot.insert_sorted mst_subtree dais.Atproto.Tree.mst_level
    dais.Atproto.Tree.split_level dais.Atproto.Tree.repo_key_depth
    dais.Atproto.Repo.Snapshot.min_depth dais.Atproto.Repo.Snapshot.max_depth
    dais.Atproto.Tree.common_prefix_len dais.Atproto.Tree.entry_ipld dais.Atproto.Tree.leading_zeros
    dais.Atproto.Tree.mst_node_block dais.Atproto.Tree.node_block dais.Atproto.Tree.node_entries
    dais.Atproto.Tree.node_ipld dais.Atproto.Tree.subtree_of dais.Atproto.Tree.to_block
    dais.Atproto.Tree.zero_bits dais.Ipld.of_list commit_block
    dais.Atproto.Repo.Snapshot.sign_commit dais.Atproto.Repo.Snapshot.commit_ipld car_header
verify_record_proof-repo_snapshot_example =
    verify_record_proof-repo_snapshot sample sample-IsLawful signer identity (bytes "r") (bytes "s")
      records blocks tree.0 tree.1 commit snapshot (bytes "f") (bytes "1") records_read tree_built
      commit_signed snapshot_made (((λ e. cc (e)), tt), (tt, tt))
      ((fits 3 refl).1, ((fits 3 refl).1, tt)) (consistent (commit ∷ tree.1) hashes)
      (λ header h.
        subst (λ b. Fits sample sample-IsLawful (length b)) (ok-injective h) (fits _ refl))
      (fits _ refl, (fits _ refl, (fits _ refl, (fits _ refl, (fits _ refl, (fits _ refl, tt))))))
