-- ===== src/Atproto/Tree/Keys.antt =====
-- The keys of a node, as core/src/atproto/repo.rs shortens them and core/src/atproto/mst.rs reads them.
use dais.Base.{
  ℕ, ◌<◌, Bytes, List, [], ◌∷◌, Option, some, ok, ◌≡◌, refl, arith, length, collect, CoreResult,
  ◌>>=◌, All, drop,
}
use mathlib.Core.Path.{subst}
use dais.Base.Run.{Run, done, return, >>=-eq-return}
use dais.Ipld.{Ipld}
use dais.Formats.{Formats, IsLawful}
use dais.Atproto.Cbor.{dag_cbor_bytes}
use dais.Atproto.Car.{CarBlock, CarFile, block}
use dais.Atproto.Mst.{MstEntry, apply_prefix, decode_mst_entry, decode_mst_node}
use dais.Atproto.Tree.{
  RepoRecordBlock, common_prefix_len, entry_ipld, node_ipld, node_entries, node_block, subtree_of,
}
use dais.Atproto.Tree.Entries.{
  common_prefix_len-le_right, apply_prefix-common, decode_mst_entry-entry_ipld,
  decode_mst_node-node_ipld,
}

module _ {C : Type 0} where
  -- The keys of decoded entries with their values: each key takes a prefix of the one before it.
  unfoldable pub keys_of : Bytes → List (MstEntry C) → CoreResult (List (Bytes × C))
  keys_of previous [] = ok []
  keys_of previous (entry ∷ more) = do
    key ← apply_prefix previous entry.prefix_len entry.key_suffix
    rest ← keys_of key more
    ok ((key, entry.value) ∷ rest)

  abbrev pub paths_of : List (RepoRecordBlock C × List (RepoRecordBlock C)) → List (Bytes × C)
  paths_of [] = []
  paths_of ((r, range) ∷ rest) = (r.path, r.cid) ∷ paths_of rest

module _ {C F N : Type 0} (x : Formats C F N) where
  -- A node of an archive: its left link, and its keys with their values.
  unfoldable pub read_keys : CarFile C → C → CoreResult (Option C × List (Bytes × C))
  read_keys car cid = do
    node ← decode_mst_node x car cid
    keys ← keys_of [] node.entries
    ok (node.left, keys)

  Read : Bytes → List (Ipld C F) → List (Bytes × C) → Type 0
  Read previous entries keys =
      (ds : List (MstEntry C)) × (collect (decode_mst_entry x) entries ≡ ok ds)
      × (keys_of previous ds ≡ ok keys)

  Read-cons :
      (r : RepoRecordBlock C) (previous : Bytes) (right : Option C) (more : List (Ipld C F))
      (keys : List (Bytes × C))
      → length r.path < x.usize_range
      → Read r.path more keys
      → let n = common_prefix_len previous r.path in
        Read previous (entry_ipld x n (drop n r.path) r.cid right ∷ more) ((r.path, r.cid) ∷ keys)
  unfolding Read
  Read-cons r previous right more keys fit (ds, read, named) =
      let n : ℕ = common_prefix_len previous r.path in
      let entry : MstEntry C = record {
        prefix_len = n;
        key_suffix = drop n r.path;
        value = r.cid;
        right = right;
      } in
      let small : n < x.usize_range = omega (arith, common_prefix_len-le_right previous r.path) in
      (
        entry ∷ ds,
        unfold collect in
            rw (decode_mst_entry-entry_ipld x n (drop n r.path) r.cid right small, read),
        unfold keys_of in rw (apply_prefix-common previous r.path, named),
      )

  node_entries-Read :
      (subtree : List (RepoRecordBlock C) → Run (C × List (CarBlock C)))
      (local : List (RepoRecordBlock C × List (RepoRecordBlock C))) (previous : Bytes)
      (entries : List (Ipld C F)) (blocks : List (CarBlock C))
      → All (λ e. length e.0.path < x.usize_range) local
      → node_entries x subtree previous local ≡ return (entries, blocks)
      → Read previous entries (paths_of local)
  unfolding node_entries Read
  node_entries-Read subtree [] previous entries blocks fits e =
      ([], (unfold collect in ground (arith, e)), (unfold keys_of in refl))
  node_entries-Read subtree ((r, range) ∷ rest) previous entries blocks fits e =
      let n : ℕ = common_prefix_len previous r.path in
      let ((right, made), e₁, e') = >>=-eq-return (subtree_of x subtree range) _ e in
      let ((more, made'), e₂, e'') = >>=-eq-return (node_entries x subtree r.path rest) _ e' in
      let eq_entries : entry_ipld x n (drop n r.path) r.cid right ∷ more ≡ entries = cc (e'') in
      subst (λ t. Read previous t ((r.path, r.cid) ∷ paths_of rest)) eq_entries
        (Read-cons r previous right more (paths_of rest) fits.0
          (node_entries-Read subtree rest r.path more made' fits.1 e₂))

  -- A node that node_block makes of the entries of node_entries is read, from an archive that holds it,
  -- with its left link, and with the paths and CIDs of all its records in their order: no key is lost by
  -- leaving out what it shares with the one before it. The length of each path fits `usize`.
  pub read_keys-node_block :
      (laws : IsLawful x) (subtree : List (RepoRecordBlock C) → Run (C × List (CarBlock C)))
      (local : List (RepoRecordBlock C × List (RepoRecordBlock C))) (left : Option C)
      (entries : List (Ipld C F)) (blocks : List (CarBlock C)) (node : CarBlock C) (car : CarFile C)
      → All (λ e. length e.0.path < x.usize_range) local
      → node_entries x subtree [] local ≡ return (entries, blocks)
      → node_block x left entries ≡ return node
      → block x car node.cid ≡ some node.payload
      → read_keys car node.cid ≡ ok (left, paths_of local)
  unfolding read_keys node_block Read
  read_keys-node_block laws subtree local left entries blocks node car fits made wrote held =
      let (ds, read, named) = node_entries-Read subtree local [] entries blocks fits made in
      let (payload, coded, e) =
        >>=-eq-return (done (dag_cbor_bytes x (node_ipld x left entries))) _ wrote in
      let coded' : dag_cbor_bytes x (node_ipld x left entries) ≡ ok node.payload =
        ground (arith, coded, e) in
      rw (
        decode_mst_node-node_ipld x laws car node.cid node.payload left entries ds held coded' read,
        named,
      )
