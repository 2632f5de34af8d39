-- ===== src/Atproto/Tree.antt =====
-- The writer of the Merkle search tree in core/src/atproto/repo.rs. A range of the sorted records
-- is modelled by the list of the records in it, and the positions of a level's records in a range
-- by the parts into which they cut it.
pub mod Depth
pub mod Lookup
pub mod Entries
pub mod Parts
pub mod Scan
pub mod Keys
pub mod Search
pub mod Contents
use dais.Base
use dais.Base.{
  ℕ, zero, suc, ◌+◌, ◌/◌, Text, Bytes, bytes, List, [], ◌∷◌, ◌++◌, Option, none, some, CoreResult,
  ok, err, map, length, ltb, leb, ◌==◌, if◌then◌else◌,
}
use dais.Base.Run.{Run, done, return, ◌>>=◌}
use dais.Ipld.{Ipld, Fields, null, integer, raw, list, dict, link, pos, insert, end, of_list}
use dais.Formats.{Formats}
use dais.Atproto.Cbor.{map_ipld, dag_cbor_bytes, dag_cbor_cid}
use dais.Atproto.Car.{CarBlock}

pub record RepoRecordBlock (C : Type 0) : Type 0 where
  pub path : Text
  pub cid : C
  pub payload : Bytes

-- `u8::leading_zeros`
unfoldable pub leading_zeros : ℕ → ℕ
leading_zeros b =
    if leb 128 b
    then 0
    else if leb 64 b
    then 1
    else if leb 32 b
    then 2
    else if leb 16 b
    then 3
    else if leb 8 b
    then 4
    else if leb 4 b
    then 5
    else if leb 2 b
    then 6
    else if leb 1 b
    then 7
    else 8

-- The loop over the digest: it stops at the first byte that is not 0.
unfoldable pub zero_bits : Bytes → ℕ
unfolding leading_zeros
zero_bits [] = 0
zero_bits (b ∷ rest) =
    let more = zero_bits rest in
    let count = leading_zeros b in if count == 8 then count + more else count

unfoldable pub common_prefix_len : Bytes → Bytes → ℕ
common_prefix_len [] right = 0
common_prefix_len (a ∷ left) [] = 0
common_prefix_len (a ∷ left) (b ∷ right) = if a == b then suc (common_prefix_len left right) else 0

module _ {C : Type 0} where
  -- `From<RepoRecordBlock> for CarBlock`
  unfoldable pub to_block : RepoRecordBlock C → CarBlock C
  to_block r = record { cid = r.cid; payload = r.payload }

module _ {C F N : Type 0} (x : Formats C F N) where
  -- `Sha256::digest(key)`, counted in pairs of leading zero bits
  unfoldable pub repo_key_depth : Bytes → ℕ
  unfolding zero_bits
  repo_key_depth key = zero_bits (x.sha256 key) / 2

  -- The records before the first one of the level, and each of those with the records behind it.
  unfoldable pub split_level :
      ℕ
      → List (RepoRecordBlock C)
      → List (RepoRecordBlock C) × List (RepoRecordBlock C × List (RepoRecordBlock C))
  split_level level [] = ([], [])
  split_level level (r ∷ rest) =
      let (front, entries) = split_level level rest in
      if repo_key_depth r.path == level then ([], (r, front) ∷ entries) else (r ∷ front, entries)

  -- One entry `{p, k, v}` of a node, and `{p, k, v, t}` where a subtree hangs to its right.
  base_fields : ℕ → Bytes → C → Fields C F
  base_fields prefix_len suffix value =
      insert (bytes "v") (link value)
        (insert (bytes "k") (raw suffix) (insert (bytes "p") (integer (pos prefix_len)) end))

  unfoldable pub entry_ipld : ℕ → Bytes → C → Option C → Ipld C F
  unfolding base_fields
  entry_ipld prefix_len suffix value none = dict (base_fields prefix_len suffix value)
  entry_ipld prefix_len suffix value (some child) =
      dict (insert (bytes "t") (link child) (base_fields prefix_len suffix value))

  link_or_null : Option C → Ipld C F
  link_or_null none = null
  link_or_null (some cid) = link cid

  unfoldable pub node_ipld : Option C → List (Ipld C F) → Ipld C F
  unfolding link_or_null
  node_ipld left entries =
      map_ipld ((bytes "l", link_or_null left) ∷ (bytes "e", list (of_list entries)) ∷ [])

  -- A node as a block of its own, named by its hash.
  unfoldable pub node_block : Option C → List (Ipld C F) → Run (CarBlock C)
  node_block left entries = do
    payload ← done (dag_cbor_bytes x (node_ipld left entries))
    return (record { cid = dag_cbor_cid x payload; payload = payload })

  -- What a writer of subtrees makes of a range: nothing if it is empty, and else a link and blocks.
  unfoldable pub subtree_of :
      (List (RepoRecordBlock C) → Run (C × List (CarBlock C)))
      → List (RepoRecordBlock C)
      → Run (Option C × List (CarBlock C))
  subtree_of subtree [] = return (none, [])
  subtree_of subtree (r ∷ rest) = do (cid, blocks) ← subtree (r ∷ rest); return (some cid, blocks)

  -- The `for` loop of `mst_node_block`: the entries and the blocks behind the node's own. The
  -- first key of a node has no prefix, since nothing stands before it.
  unfoldable pub node_entries :
      (List (RepoRecordBlock C) → Run (C × List (CarBlock C)))
      → Bytes
      → List (RepoRecordBlock C × List (RepoRecordBlock C))
      → Run (List (Ipld C F) × List (CarBlock C))
  node_entries subtree previous_key [] = return ([], [])
  node_entries subtree previous_key ((r, range) ∷ rest) = do
    let prefix_len = common_prefix_len previous_key r.path
    (right, blocks) ← subtree_of subtree range
    (entries, more) ← node_entries subtree r.path rest
    return (
      entry_ipld prefix_len (Base.drop prefix_len r.path) r.cid right ∷ entries,
      to_block r ∷ (blocks ++ more),
    )

  -- `mst_node_block`: the node first, then the blocks of its left subtree and of its entries.
  unfoldable pub mst_node_block :
      (List (RepoRecordBlock C) → Run (C × List (CarBlock C)))
      → Option C
      → List (RepoRecordBlock C)
      → List (RepoRecordBlock C × List (RepoRecordBlock C))
      → Run (CarBlock C × List (CarBlock C))
  mst_node_block subtree left first local = do
    (_, left_blocks) ← subtree_of subtree first
    (entries, blocks) ← node_entries subtree [] local
    node ← node_block left entries
    return (node, node ∷ (left_blocks ++ blocks))

  -- One level of `mst_subtree`, over the writer of the next level.
  unfoldable pub mst_level :
      (List (RepoRecordBlock C) → Run (C × List (CarBlock C)))
      → List (RepoRecordBlock C)
      → List (RepoRecordBlock C) × List (RepoRecordBlock C × List (RepoRecordBlock C))
      → Run (C × List (CarBlock C))
  mst_level subtree [] parts = do node ← node_block none []; return (node.cid, node ∷ [])
  mst_level subtree (r ∷ rest) (first, []) = do
    (child_cid, child_blocks) ← subtree (r ∷ rest)
    node ← node_block (some child_cid) []
    return (node.cid, node ∷ child_blocks)
  mst_level subtree (r ∷ rest) (first, entry ∷ entries) = do
    (left, _) ← subtree_of subtree first
    (node, blocks) ← mst_node_block subtree left first (entry ∷ entries)
    return (node.cid, blocks)

  -- The fuel bounds the levels that are tried; `none` means that it ran out.
  unfoldable pub mst_subtree : ℕ → List (RepoRecordBlock C) → ℕ → Run (C × List (CarBlock C))
  mst_subtree zero records level = none
  mst_subtree (suc fuel) records level =
      mst_level (λ range. mst_subtree fuel range (suc level)) records (split_level level records)
