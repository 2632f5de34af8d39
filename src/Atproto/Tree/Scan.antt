-- ===== src/Atproto/Tree/Scan.antt =====
-- One node of a lookup: `mst_get` of core/src/atproto/mst.rs by the orders of the key.
use dais.Base.{
  ℕ, zero, suc, ◌<◌, ◌≤◌, Bytes, List, [], ◌∷◌, ◌++◌, Option, none, some, ok, err, lt, eq, gt,
  Ordering, ◌≡◌, refl, ap, ◌∙◌, sym, arith, length, collect, CoreResult, All, All-append_left,
  All-append_right, text_cmp, text_cmp_refl, text_cmp-eq, text_cmp-flip, flip, append_assoc,
  append-nil, inl, inr, Ordering-cases, >>=-eq-ok,
}
use dais.Base.Run.{Run, return}
use dais.Formats.{Formats}
use dais.Atproto.Car.{CarFile}
use dais.Atproto.Mst.{MstEntry, Found, hit, gap, scan_entries, search_node, mst_get}
use dais.Atproto.Tree.{RepoRecordBlock, common_prefix_len}
use dais.Atproto.Tree.Lookup.{
  lookup, IsSorted, lookup-Below, lookup-Above, lookup_here, IsSorted-before, Below-trans,
  Above-trans,
}
use dais.Atproto.Tree.Entries.{apply_prefix-common}

module _ {C F N : Type 0} (x : Formats C F N) (fuel : ℕ) (car : CarFile C) (key : Bytes) where
  -- The search below a gap.
  unfoldable pub follow : Option C → Run (Option C)
  follow none = return none
  follow (some child) = mst_get x fuel car child key

  -- What `mst_get` does with the result of one node.
  unfoldable pub resolve : CoreResult (Found C) → Run (Option C)
  resolve (err e) = some (err e)
  resolve (ok (hit value)) = return (some value)
  resolve (ok (gap link)) = follow link

  pub mst_get_step :
      (root : C) → mst_get x (suc fuel) car root key ≡ resolve (search_node x car root key)
  unfolding mst_get resolve follow
  mst_get_step root = ground arith

  -- One round of the loop, at an entry whose key is `path`: the three orders of the keys.
  pub scan_entries_step :
      (r : RepoRecordBlock C) (previous : Bytes) (right gap_link : Option C)
      (ds : List (MstEntry C)) (o : Ordering)
      → text_cmp key r.path ≡ o
      → let n = common_prefix_len previous r.path in
        let entry : MstEntry C = record {
          prefix_len = n;
          key_suffix = dais.Base.drop n r.path;
          value = r.cid;
          right = right;
        } in
        scan_entries (entry ∷ ds) previous gap_link key ≡ elim o [
          | lt ↦ ok (gap gap_link)
          | eq ↦ ok (hit r.cid)
          | gt ↦ scan_entries ds r.path right key
        ]
  unfolding scan_entries
  scan_entries_step r previous right gap_link ds o e =
      ground (arith, apply_prefix-common previous r.path)

  pub round :
      (r : RepoRecordBlock C) (range tail gap_range : List (RepoRecordBlock C)) (previous : Bytes)
      (right gap_link : Option C) (ds : List (MstEntry C))
      → IsSorted (gap_range ++ (r ∷ (range ++ tail)))
      → follow gap_link ≡ return (lookup gap_range key)
      → resolve (scan_entries ds r.path right key) ≡ return (lookup (range ++ tail) key)
      → let n = common_prefix_len previous r.path in
        let entry : MstEntry C = record {
          prefix_len = n;
          key_suffix = dais.Base.drop n r.path;
          value = r.cid;
          right = right;
        } in
        resolve (scan_entries (entry ∷ ds) previous gap_link key)
        ≡ return (lookup (gap_range ++ (r ∷ (range ++ tail))) key)
  unfolding resolve
  round r range tail gap_range previous right gap_link ds sorted below rest =
      let (before, after) = IsSorted-before gap_range r (range ++ tail) sorted in
      let step = scan_entries_step r previous right gap_link ds in
      elim (Ordering-cases (text_cmp key r.path)) [
        | inl less ↦
            ap resolve (step lt less)
            ∙ below
            ∙ ap return (
                sym (
                  lookup-Above gap_range (r ∷ (range ++ tail)) key
                    (less, Above-trans (range ++ tail) r.path key after.0 less)))
        | inr (inl same) ↦
            ap resolve (step eq same)
            ∙ ap return (
                sym (
                  ap (lookup (gap_range ++ (r ∷ (range ++ tail)))) (text_cmp-eq key r.path same)
                  ∙ lookup-Below gap_range (r ∷ (range ++ tail)) r.path before
                  ∙ lookup_here r (range ++ tail)))
        | inr (inr more) ↦
            let less : text_cmp r.path key ≡ lt = text_cmp-flip key r.path ∙ ap flip more in
            ap resolve (step gt more)
            ∙ rest
            ∙ ap return (
                sym (
                  lookup-Below gap_range (r ∷ (range ++ tail)) key
                    (Below-trans gap_range r.path key before less)
                  ∙ lookup-Below (r ∷ []) (range ++ tail) key (less, tt)))
      ]
