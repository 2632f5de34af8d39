-- ===== src/Atproto/Tree/Search.antt =====
-- The lookup of core/src/atproto/mst.rs on the tree that core/src/atproto/repo.rs writes.
use dais.Base.{
  ℕ, zero, suc, ◌<◌, ◌≤◌, Bytes, List, [], ◌∷◌, ◌++◌, Option, none, some, ok, err, lt, eq, gt,
  Ordering, ◌≡◌, refl, ap, ◌∙◌, sym, arith, length, collect, CoreResult, All, All-append_left,
  All-append_right, text_cmp, text_cmp_refl, text_cmp-eq, text_cmp-flip, flip, append_assoc,
  append-nil, inl, inr, Ordering-cases, >>=-eq-ok,
}
use dais.Base.Run.{Run, done, return, >>=-eq-return}
use dais.Ipld.{Ipld}
use dais.Formats.{Formats, IsLawful}
use dais.Atproto.Cbor.{dag_cbor_bytes}
use dais.Atproto.Car.{CarFile, CarBlock}
use dais.Atproto.Car.Blocks.{Holds}
use dais.Atproto.Mst.{MstEntry, scan_entries, search_node, mst_get, decode_mst_entry}
use dais.Atproto.Tree.{
  RepoRecordBlock, to_block, common_prefix_len, entry_ipld, node_ipld, node_block, node_entries,
  subtree_of, mst_level, mst_node_block, mst_subtree, split_level,
}
use dais.Atproto.Tree.Lookup.{
  lookup, IsSorted, IsSorted-before, IsSorted-left, IsSorted-right, flat, split_level-flat,
}
use dais.Atproto.Tree.Entries.{
  common_prefix_len-le_right, decode_mst_entry-entry_ipld, decode_mst_node-node_ipld,
}
use dais.Atproto.Tree.Parts.{mst_node_block-parts}
use mathlib.Core.Path.{subst}
use dais.Atproto.Tree.Scan.{follow, resolve, mst_get_step, round}

module _ {C F N : Type 0} (x : Formats C F N) (laws : IsLawful x) (fuel : ℕ) (car : CarFile C)
    (key : Bytes) (subtree : List (RepoRecordBlock C) → Run (C × List (CarBlock C))) where
  abbrev pub FitsPath : RepoRecordBlock C → Type 0
  FitsPath r = length r.path < x.usize_range

  -- The subtrees of the next level are searched right.
  abbrev pub Searched : Type 0
  Searched =
      (range : List (RepoRecordBlock C)) (cid : C) (blocks : List (CarBlock C))
      → subtree range ≡ return (cid, blocks)
      → All (Holds x car) blocks
      → IsSorted range
      → All FitsPath range
      → mst_get x fuel car cid key ≡ return (lookup range key)

  subtree_of-follow :
      (searched : Searched) (range : List (RepoRecordBlock C)) (link : Option C)
      (blocks : List (CarBlock C))
      → subtree_of x subtree range ≡ return (link, blocks)
      → All (Holds x car) blocks
      → IsSorted range
      → All FitsPath range
      → follow x fuel car key link ≡ return (lookup range key)
  unfolding subtree_of follow lookup
  subtree_of-follow searched [] link blocks e held sorted fits = ground (arith, e)
  subtree_of-follow searched (r ∷ rest) link blocks e held sorted fits =
      let ((cid, bs), made, e') = >>=-eq-return (subtree (r ∷ rest)) _ e in
      ground (arith, e', searched (r ∷ rest) cid bs made)

  -- The entries that were written are decoded, and the loop over them finds the key in the records
  -- that they stand for.
  Scanned : Bytes → List (Ipld C F) → List (RepoRecordBlock C) → Type 0
  Scanned previous entries records =
      (ds : List (MstEntry C)) × (collect (decode_mst_entry x) entries ≡ ok ds)
      × ((gap_range : List (RepoRecordBlock C)) (gap_link : Option C)
          → IsSorted (gap_range ++ records)
          → follow x fuel car key gap_link ≡ return (lookup gap_range key)
          → resolve x fuel car key (scan_entries ds previous gap_link key)
            ≡ return (lookup (gap_range ++ records) key))

  Scanned-cons :
      (r : RepoRecordBlock C) (range tail : List (RepoRecordBlock C)) (previous : Bytes)
      (right : Option C) (more : List (Ipld C F))
      → FitsPath r
      → follow x fuel car key right ≡ return (lookup range key)
      → Scanned r.path more tail
      → let n = common_prefix_len previous r.path in
        Scanned previous
          (entry_ipld x n (dais.Base.drop n r.path) r.cid right ∷ more)
          (r ∷ (range ++ tail))
  unfolding Scanned
  Scanned-cons r range tail previous right more fit below (ds, read, scan) =
      let n : ℕ = common_prefix_len previous r.path in
      let suffix = dais.Base.drop n r.path in
      let entry : MstEntry C = record {
        prefix_len = n;
        key_suffix = suffix;
        value = r.cid;
        right = right;
      } in
      let small : n < x.usize_range = omega (arith, common_prefix_len-le_right previous r.path) in
      (
        entry ∷ ds,
        unfold collect in rw (decode_mst_entry-entry_ipld x n suffix r.cid right small, read),
        λ gap_range gap_link sorted before.
            round x fuel car key r range tail gap_range previous right gap_link ds sorted before
              (scan range right (IsSorted-before gap_range r (range ++ tail) sorted).1.1 below),
      )

  node_entries-Scanned :
      (searched : Searched) (local : List (RepoRecordBlock C × List (RepoRecordBlock C)))
      (previous : Bytes) (entries : List (Ipld C F)) (blocks : List (CarBlock C))
      → node_entries x subtree previous local ≡ return (entries, blocks)
      → All (Holds x car) blocks
      → IsSorted (flat local)
      → All FitsPath (flat local)
      → Scanned previous entries (flat local)
  unfolding node_entries flat Scanned
  node_entries-Scanned searched [] previous entries blocks e held sorted fits = (
    [],
    unfold collect in ground (arith, e),
    λ gap_range gap_link s below. unfold scan_entries resolve in rw append-nil below,
  )
  node_entries-Scanned searched ((r, range) ∷ rest) previous entries blocks e held sorted fits =
      let n : ℕ = common_prefix_len previous r.path in
      let ((right, made), e₁, e') = >>=-eq-return (subtree_of x subtree range) _ e in
      let ((more, made'), e₂, e'') = >>=-eq-return (node_entries x subtree r.path rest) _ e' in
      let eq_entries : entry_ipld x n (dais.Base.drop n r.path) r.cid right ∷ more ≡ entries =
        cc (e'') in
      let eq_blocks : blocks ≡ to_block r ∷ (made ++ made') = cc (e'') in
      let held' : All (Holds x car) (to_block r ∷ (made ++ made')) =
        subst (All (Holds x car)) eq_blocks held in
      subst (λ t. Scanned previous t (r ∷ (range ++ flat rest))) eq_entries
        (Scanned-cons r range (flat rest) previous right more fits.0
          (subtree_of-follow searched range right made e₁ (All-append_left _ made made' held'.1)
            (IsSorted-left range (flat rest) sorted.1) (All-append_left _ range (flat rest) fits.1))
          (node_entries-Scanned searched rest r.path more made' e₂
            (All-append_right _ made made' held'.1) (IsSorted-right range (flat rest) sorted.1)
            (All-append_right _ range (flat rest) fits.1)))

  node_block-eq :
      (left : Option C) (entries : List (Ipld C F)) (node : CarBlock C)
      → node_block x left entries ≡ return node
      → dag_cbor_bytes x (node_ipld x left entries) ≡ ok node.payload
  unfolding node_block
  node_block-eq left entries node h =
      let (payload, made, e) =
        >>=-eq-return (done (dag_cbor_bytes x (node_ipld x left entries))) _ h in
      ground (arith, made, e)

  -- A node that the archive holds is searched as the records that it stands for.
  node_search :
      (left : Option C) (entries : List (Ipld C F)) (node : CarBlock C)
      (first records : List (RepoRecordBlock C))
      → node_block x left entries ≡ return node
      → Holds x car node
      → Scanned [] entries records
      → IsSorted (first ++ records)
      → follow x fuel car key left ≡ return (lookup first key)
      → mst_get x (suc fuel) car node.cid key ≡ return (lookup (first ++ records) key)
  unfolding Scanned
  node_search left entries node first records made held (ds, read, scan) sorted below =
      let found : search_node x car node.cid key ≡ scan_entries ds [] left key =
        unfold search_node in
        rw (
          decode_mst_node-node_ipld x laws car node.cid node.payload left entries ds held
            (node_block-eq left entries node made) read) in
      mst_get_step x fuel car key node.cid
      ∙ ap (resolve x fuel car key) found
      ∙ scan first left sorted below

  Scanned-nil : (previous : Bytes) → Scanned previous [] []
  unfolding Scanned
  Scanned-nil previous = (
    [],
    unfold collect in refl,
    λ gap_range gap_link s below. unfold scan_entries resolve in rw append-nil below,
  )

  mst_level-lookup :
      (searched : Searched) (records : List (RepoRecordBlock C))
      (parts : List (RepoRecordBlock C) × List (RepoRecordBlock C × List (RepoRecordBlock C)))
      (cid : C) (blocks : List (CarBlock C))
      → parts.0 ++ flat parts.1 ≡ records
      → mst_level x subtree records parts ≡ return (cid, blocks)
      → All (Holds x car) blocks
      → IsSorted records
      → All FitsPath records
      → mst_get x (suc fuel) car cid key ≡ return (lookup records key)
  unfolding mst_level
  mst_level-lookup searched [] (first, local) cid blocks cut e held sorted fits =
      let (node, made, e') = >>=-eq-return (node_block x none []) _ e in
      let listed : blocks ≡ node ∷ [] = cc (e') in
      let named : node.cid ≡ cid = cc (e') in
      let held' : All (Holds x car) (node ∷ []) = subst (All (Holds x car)) listed held in
      subst (λ c. mst_get x (suc fuel) car c key ≡ return (lookup [] key)) named
        (node_search none [] node [] [] made held'.0 (Scanned-nil []) tt
          (unfold follow lookup in refl))
  mst_level-lookup searched (r ∷ rest) (first, []) cid blocks cut e held sorted fits =
      let ((child, below), sub, e') = >>=-eq-return (subtree (r ∷ rest)) _ e in
      let (node, made, e'') = >>=-eq-return (node_block x (some child) []) _ e' in
      let listed : blocks ≡ node ∷ below = cc (e'') in
      let named : node.cid ≡ cid = cc (e'') in
      let held' : All (Holds x car) (node ∷ below) = subst (All (Holds x car)) listed held in
      let under = searched (r ∷ rest) child below sub held'.1 sorted fits in
      subst (λ c. mst_get x (suc fuel) car c key ≡ return (lookup (r ∷ rest) key)) named
        (rw append-nil at (
          node_search (some child) [] node (r ∷ rest) [] made held'.0 (Scanned-nil [])
            (rw append-nil sorted) (unfold follow in under)))
  mst_level-lookup searched (r ∷ rest) (first, entry ∷ local) cid blocks cut e held sorted fits =
      let ((left, bs), sub, e₁) = >>=-eq-return (subtree_of x subtree first) _ e in
      let ((node, bs'), made, e₂) =
        >>=-eq-return (mst_node_block x subtree left first (entry ∷ local)) _ e₁ in
      let parts =
        mst_node_block-parts x subtree left first (entry ∷ local) node bs' left bs sub made in
      let (entries, behind, wrote, named, listed) = parts in
      let listed' : blocks ≡ node ∷ (bs ++ behind) = cc (e₂, listed) in
      let same : node.cid ≡ cid = cc (e₂) in
      let held' : All (Holds x car) (node ∷ (bs ++ behind)) =
        subst (All (Holds x car)) listed' held in
      let sorted' : IsSorted (first ++ flat (entry ∷ local)) = rw cut sorted in
      let fits' : All FitsPath (first ++ flat (entry ∷ local)) = rw cut fits in
      let under =
        subtree_of-follow searched first left bs sub (All-append_left _ bs behind held'.1)
          (IsSorted-left first _ sorted') (All-append_left _ first _ fits') in
      let scanned =
        node_entries-Scanned searched (entry ∷ local) [] entries behind wrote
          (All-append_right _ bs behind held'.1) (IsSorted-right first _ sorted')
          (All-append_right _ first _ fits') in
      subst (λ c. mst_get x (suc fuel) car c key ≡ return (lookup (r ∷ rest) key)) same
        (rw cut at (node_search left entries node first _ named held'.0 scanned sorted' under))

module _ {C F N : Type 0} (x : Formats C F N) (laws : IsLawful x) where
  -- The lookup of any key in a tree that `mst_subtree` wrote, all of whose blocks the archive
  -- holds, is the lookup in the records: it ends, and finds the record's CID or nothing. The records
  -- are sorted, and the length of a path fits `usize`.
  pub mst_get-mst_subtree :
      (fuel : ℕ) (car : CarFile C) (key : Bytes) (records : List (RepoRecordBlock C)) (level : ℕ)
      (cid : C) (blocks : List (CarBlock C))
      → mst_subtree x fuel records level ≡ return (cid, blocks)
      → All (Holds x car) blocks
      → IsSorted records
      → All (λ r. length r.path < x.usize_range) records
      → mst_get x fuel car cid key ≡ return (lookup records key)
  unfolding mst_subtree
  mst_get-mst_subtree zero car key records level cid blocks e held sorted fits = cc
  mst_get-mst_subtree (suc fuel) car key records level cid blocks e held sorted fits =
      mst_level-lookup x laws fuel car key (λ range. mst_subtree x fuel range (suc level))
        (λ range c bs made h s f.
          mst_get-mst_subtree fuel car key range (suc level) c bs made h s f)
        records (split_level x level records) cid blocks (split_level-flat x level records) e held
        sorted fits
