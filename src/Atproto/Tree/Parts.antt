-- ===== src/Atproto/Tree/Parts.antt =====
-- The parts of a node that `mst_node_block` wrote.
use dais.Base.{List, [], ◌∷◌, ◌++◌, Option, ◌≡◌, arith}
use dais.Base.Run.{Run, return, >>=-eq-return}
use dais.Ipld.{Ipld}
use dais.Formats.{Formats}
use dais.Atproto.Car.{CarBlock}
use dais.Atproto.Tree.{RepoRecordBlock, node_block, node_entries, subtree_of, mst_node_block}

module _ {C F N : Type 0} (x : Formats C F N)
    (subtree : List (RepoRecordBlock C) → Run (C × List (CarBlock C))) where
  pub mst_node_block-parts :
      (left : Option C) (first : List (RepoRecordBlock C))
      (local : List (RepoRecordBlock C × List (RepoRecordBlock C))) (node : CarBlock C)
      (blocks : List (CarBlock C)) (link : Option C) (below : List (CarBlock C))
      → subtree_of x subtree first ≡ return (link, below)
      → mst_node_block x subtree left first local ≡ return (node, blocks)
      → (entries : List (Ipld C F)) × (behind : List (CarBlock C)) × (node_entries x subtree []
            local
          ≡ return (entries, behind))
        × (node_block x left entries ≡ return node)
        × (blocks ≡ node ∷ (below ++ behind))
  unfolding mst_node_block
  mst_node_block-parts left first local node blocks link below sub e =
      let e₁ = rw sub at e in
      let ((entries, behind), e₂, e₃) = >>=-eq-return (node_entries x subtree [] local) _ e₁ in
      let (node', made, e₄) = >>=-eq-return (node_block x left entries) _ e₃ in
      (entries, behind, e₂, ground (arith, made, e₄), ground (arith, e₄))
