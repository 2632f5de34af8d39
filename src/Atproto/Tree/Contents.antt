-- ===== src/Atproto/Tree/Contents.antt =====
-- What the writer of the tree puts into the archive besides its nodes: every record's block.
use dais.Base.{
  ℕ, zero, suc, Bytes, List, [], ◌∷◌, ◌++◌, Option, some, ◌≡◌, All, All-append, All-append_left,
  All-append_right,
}
use dais.Base.Run.{Run, return, >>=-eq-return}
use dais.Formats.{Formats}
use dais.Atproto.Car.{CarBlock}
use dais.Atproto.Tree.{
  RepoRecordBlock, to_block, node_block, node_entries, subtree_of, mst_level, mst_node_block,
  mst_subtree, split_level,
}
use dais.Atproto.Tree.Lookup.{flat, split_level-flat}
use dais.Atproto.Tree.Parts.{mst_node_block-parts}
use mathlib.Core.Path.{subst}

module _ {C F N : Type 0} (x : Formats C F N) (P : CarBlock C → Type 0)
    (subtree : List (RepoRecordBlock C) → Run (C × List (CarBlock C)))
    (carries : (range : List (RepoRecordBlock C)) (cid : C) (blocks : List (CarBlock C))
      → subtree range ≡ return (cid, blocks)
      → All P blocks
      → All (λ r. P (to_block r)) range) where
  subtree_of-All :
      (range : List (RepoRecordBlock C)) (link : Option C) (blocks : List (CarBlock C))
      → subtree_of x subtree range ≡ return (link, blocks)
      → All P blocks
      → All (λ r. P (to_block r)) range
  unfolding subtree_of
  subtree_of-All [] link blocks e h = tt
  subtree_of-All (r ∷ rest) link blocks e h =
      let ((cid, bs), made, e') = >>=-eq-return (subtree (r ∷ rest)) _ e in
      let same : blocks ≡ bs = cc (e') in carries (r ∷ rest) cid bs made (subst (All P) same h)

  node_entries-All :
      (local : List (RepoRecordBlock C × List (RepoRecordBlock C))) (previous : Bytes)
      (entries : List (dais.Ipld.Ipld C F)) (blocks : List (CarBlock C))
      → node_entries x subtree previous local ≡ return (entries, blocks)
      → All P blocks
      → All (λ r. P (to_block r)) (flat local)
  unfolding node_entries flat
  node_entries-All [] previous entries blocks e h = tt
  node_entries-All ((r, range) ∷ rest) previous entries blocks e h =
      let ((right, made), e₁, e') = >>=-eq-return (subtree_of x subtree range) _ e in
      let ((more, made'), e₂, e'') = >>=-eq-return (node_entries x subtree r.path rest) _ e' in
      let same : blocks ≡ to_block r ∷ (made ++ made') = cc (e'') in
      let all : All P (to_block r ∷ (made ++ made')) = subst (All P) same h in
      (
        all.0,
        All-append _ range (flat rest)
            (subtree_of-All range right made e₁ (All-append_left P made made' all.1))
            (node_entries-All rest r.path more made' e₂ (All-append_right P made made' all.1)),
      )

  mst_level-All :
      (records : List (RepoRecordBlock C))
      (parts : List (RepoRecordBlock C) × List (RepoRecordBlock C × List (RepoRecordBlock C)))
      (cid : C) (blocks : List (CarBlock C))
      → parts.0 ++ flat parts.1 ≡ records
      → mst_level x subtree records parts ≡ return (cid, blocks)
      → All P blocks
      → All (λ r. P (to_block r)) records
  unfolding mst_level
  mst_level-All [] parts cid blocks cut e h = tt
  mst_level-All (r ∷ rest) (first, []) cid blocks cut e h =
      let ((child, below), sub, e') = >>=-eq-return (subtree (r ∷ rest)) _ e in
      let (node, made, e'') = >>=-eq-return (node_block x (some child) []) _ e' in
      let same : blocks ≡ node ∷ below = cc (e'') in
      let all : All P (node ∷ below) = subst (All P) same h in
      carries (r ∷ rest) child below sub all.1
  mst_level-All (r ∷ rest) (first, entry ∷ local) cid blocks cut e h =
      let ((left, bs), sub, e₁) = >>=-eq-return (subtree_of x subtree first) _ e in
      let ((node, bs'), built, e₂) =
        >>=-eq-return (mst_node_block x subtree left first (entry ∷ local)) _ e₁ in
      let parts =
        mst_node_block-parts x subtree left first (entry ∷ local) node bs' left bs sub built in
      let (entries, behind, wrote, named, listed) = parts in
      let same : blocks ≡ node ∷ (bs ++ behind) = cc (e₂, listed) in
      let all : All P (node ∷ (bs ++ behind)) = subst (All P) same h in
      subst (All (λ s. P (to_block s))) cut (
        All-append _ first (flat (entry ∷ local))
          (subtree_of-All first left bs sub (All-append_left P bs behind all.1))
          (node_entries-All (entry ∷ local) [] entries behind wrote
            (All-append_right P bs behind all.1)))

module _ {C F N : Type 0} (x : Formats C F N) (P : CarBlock C → Type 0) where
  -- What holds of every block of the tree holds of every record's own block.
  pub mst_subtree-All :
      (fuel : ℕ) (records : List (RepoRecordBlock C)) (level : ℕ) (cid : C)
      (blocks : List (CarBlock C))
      → mst_subtree x fuel records level ≡ return (cid, blocks)
      → All P blocks
      → All (λ r. P (to_block r)) records
  unfolding mst_subtree
  mst_subtree-All zero records level cid blocks e h = cc
  mst_subtree-All (suc fuel) records level cid blocks e h =
      mst_level-All x P (λ range. mst_subtree x fuel range (suc level))
        (λ range c bs made all. mst_subtree-All fuel range (suc level) c bs made all) records
        (split_level x level records) cid blocks (split_level-flat x level records) e h
