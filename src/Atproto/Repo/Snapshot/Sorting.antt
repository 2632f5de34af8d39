-- ===== src/Atproto/Repo/Snapshot/Sorting.antt =====
-- The sorted records of a snapshot, and the tree over them.
use dais.Base.{
  ℕ, suc, ◌≤◌, Bytes, List, [], ◌∷◌, lt, ◌≡◌, ◌≢◌, refl, ap, sym, ◌∙◌, arith, Ordering-cases, inl,
  inr, collect, CoreResult, CoreResult, All, text_cmp, text_cmp-eq, text_cmp-flip, text_cmp_trans,
  flip, All-imp,
}
use dais.Base.Run.{done, Returns, >>=-Returns}
use dais.Formats.{Formats, Signer}
use dais.Atproto.Tree.{RepoRecordBlock, repo_key_depth, mst_subtree, mst_level}
use dais.Atproto.Tree.Lookup.{IsSorted}
use dais.Atproto.Tree.Depth.{Reaches, mst_subtree-Returns}
use dais.Atproto.Repo.{AtprotoIdentity}
use dais.Atproto.Repo.Snapshot.{
  RepoRecord, insert_sorted, sort_by_path, min_depth, max_depth, repo_tree, repo_record_block,
  repo_snapshot_from_records, snapshot_of,
}

module _ {C : Type 0} where
  pub insert_sorted-All {κ} :
      (P : RepoRecordBlock C → Type κ) (r : RepoRecordBlock C) (rs : List (RepoRecordBlock C))
      → P r
      → All P rs
      → All P (insert_sorted r rs)
  unfolding insert_sorted
  insert_sorted-All P r [] p h = (p, tt)
  insert_sorted-All P r (s ∷ rest) p h = ground (arith, insert_sorted-All P r rest p h.1)

  pub sort_by_path-All {κ} :
      (P : RepoRecordBlock C → Type κ) (rs : List (RepoRecordBlock C))
      → All P rs
      → All P (sort_by_path rs)
  unfolding sort_by_path
  sort_by_path-All P [] h = tt
  sort_by_path-All P (r ∷ rest) h =
      insert_sorted-All P r (sort_by_path rest) h.0 (sort_by_path-All P rest h.1)

  -- No path twice.
  abbrev pub IsDistinct : List (RepoRecordBlock C) → Type 0
  IsDistinct [] = Unit
  IsDistinct (r ∷ rest) = All (λ s. s.path ≢ r.path) rest × IsDistinct rest

  insert_sorted-IsSorted :
      (r : RepoRecordBlock C) (rs : List (RepoRecordBlock C))
      → IsSorted rs
      → All (λ s. s.path ≢ r.path) rs
      → IsSorted (insert_sorted r rs)
  unfolding insert_sorted
  insert_sorted-IsSorted r [] h fresh = (tt, tt)
  insert_sorted-IsSorted r (s ∷ rest) h fresh = elim (Ordering-cases (text_cmp r.path s.path)) [
    | inl less ↦
        rw (less, insert_sorted)
          ((less, All-imp (λ t k. text_cmp_trans r.path s.path t.path less k) rest h.0), h)
    | inr (inl same) ↦ absurd (fresh.0 (sym (text_cmp-eq r.path s.path same)))
    | inr (inr more) ↦
        rw (more, insert_sorted)
          (
            insert_sorted-All (λ t. text_cmp s.path t.path ≡ lt) r rest
                (text_cmp-flip r.path s.path ∙ ap flip more) h.0,
            insert_sorted-IsSorted r rest h.1 fresh.1,
          )
  ]

  -- Records of distinct paths are put into strictly ascending order.
  pub sort_by_path-IsSorted :
      (rs : List (RepoRecordBlock C)) → IsDistinct rs → IsSorted (sort_by_path rs)
  unfolding sort_by_path
  sort_by_path-IsSorted [] h = tt
  sort_by_path-IsSorted (r ∷ rest) h =
      insert_sorted-IsSorted r (sort_by_path rest) (sort_by_path-IsSorted rest h.1)
        (sort_by_path-All (λ s. s.path ≢ r.path) rest h.0)

module _ {C F N : Type 0} (x : Formats C F N) where
  min_depth-le :
      (r : RepoRecordBlock C) (rest : List (RepoRecordBlock C))
      → All (λ s. min_depth x (r ∷ rest) ≤ repo_key_depth x s.path) (r ∷ rest)
  unfolding min_depth
  min_depth-le r [] = (omega arith, tt)
  min_depth-le r (s ∷ rest) =
      (omega arith, All-imp (λ t h. omega arith) (s ∷ rest) (min_depth-le s rest))

  max_depth-le :
      (rs : List (RepoRecordBlock C)) → All (λ s. repo_key_depth x s.path ≤ max_depth x rs) rs
  unfolding max_depth
  max_depth-le [] = tt
  max_depth-le (r ∷ rest) = (omega arith, All-imp (λ t h. omega arith) rest (max_depth-le rest))

  both :
      (lo hi : ℕ) (rs : List (RepoRecordBlock C))
      → All (λ s. lo ≤ repo_key_depth x s.path) rs
      → All (λ s. repo_key_depth x s.path ≤ hi) rs
      → Reaches x (suc hi) lo rs
  both lo hi [] h k = tt
  both lo hi (r ∷ rest) h k = ((h.0, omega arith), both lo hi rest h.1 k.1)

  -- The tree over any records is the one of `mst_subtree`, from the least depth on.
  pub repo_tree-mst_subtree :
      (rs : List (RepoRecordBlock C))
      → repo_tree x rs ≡ mst_subtree x (suc (max_depth x rs)) rs (min_depth x rs)
  unfolding repo_tree mst_subtree mst_level max_depth min_depth
  repo_tree-mst_subtree [] = refl
  repo_tree-mst_subtree (r ∷ rest) = refl

  reaches : (rs : List (RepoRecordBlock C)) → Reaches x (suc (max_depth x rs)) (min_depth x rs) rs
  reaches [] = tt
  reaches (r ∷ rest) =
      both (min_depth x (r ∷ rest)) (max_depth x (r ∷ rest)) (r ∷ rest) (min_depth-le r rest)
        (max_depth-le (r ∷ rest))

  pub repo_tree-Returns : (rs : List (RepoRecordBlock C)) → Returns (repo_tree x rs)
  repo_tree-Returns rs =
      rw (repo_tree-mst_subtree rs) (
        mst_subtree-Returns x (suc (max_depth x rs)) rs (min_depth x rs) (omega arith) (reaches rs))

  -- A snapshot is made, or refused with an error, from any records: the writer of the tree never
  -- goes on for ever.
  pub repo_snapshot_from_records-Returns :
      {K : Type 0} (signer : Signer K) (identity : AtprotoIdentity) (rev signing_secret : Bytes)
      (records : List (RepoRecord N))
      → Returns (repo_snapshot_from_records x signer identity rev signing_secret records)
  unfolding repo_snapshot_from_records
  repo_snapshot_from_records-Returns signer identity rev signing_secret records =
      >>=-Returns (done (collect (repo_record_block x) records)) _ (λ e. cc)
        (λ blocks.
          >>=-Returns (repo_tree x (sort_by_path blocks)) _
            (repo_tree-Returns (sort_by_path blocks))
            (λ tree. returns (snapshot_of x signer identity rev signing_secret tree)))
    where
      returns : {A : Type 0} (r : CoreResult A) → Returns (done r)
      returns r e = cc
