-- ===== src/Atproto/Tree/Depth.antt =====
-- The writer of the tree ends: the levels it tries are bounded by the depths of the keys.
use dais.Base.{
  ℕ, zero, suc, ◌+◌, ◌*◌, ◌<◌, ◌≤◌, Bytes, List, [], ◌∷◌, ◌++◌, Option, none, some, ◌≡◌, ◌≢◌, refl,
  sym, ap, ◌∙◌, arith, length, All, ◌==◌, inl, inr, Bool-cases, append-nil,
}
use dais.Base.Run.{Run, done, Returns, >>=-Returns}
use dais.Ipld.{Ipld}
use mathlib.Core.Path.{subst}
use dais.Formats.{Formats}
use dais.Atproto.Cbor.{dag_cbor_bytes}
use dais.Atproto.Car.{CarBlock}
use dais.Atproto.Tree.{
  RepoRecordBlock, zero_bits, leading_zeros, repo_key_depth, split_level, node_block, subtree_of,
  node_entries, mst_node_block, mst_level, mst_subtree, node_ipld,
}
use dais.Atproto.Tree.Lookup.{flat, split_level-flat}

leading_zeros-le : (b : ℕ) → leading_zeros b ≤ 8
unfolding leading_zeros
leading_zeros-le b = ground arith

zero_bits-le : (digest : Bytes) → zero_bits digest ≤ 8 * length digest
unfolding zero_bits
zero_bits-le [] = omega arith
zero_bits-le (b ∷ rest) = ground (arith, leading_zeros-le b, zero_bits-le rest)

module _ {C F N : Type 0} (x : Formats C F N) where
  -- A digest of 32 bytes gives a depth of 128 at most.
  pub repo_key_depth-le : (key : Bytes) → length (x.sha256 key) ≡ 32 → repo_key_depth x key ≤ 128
  unfolding repo_key_depth
  repo_key_depth-le key h = omega (arith, zero_bits-le (x.sha256 key))

  -- The depths that `fuel` levels from `level` on take in.
  abbrev pub Reaches : ℕ → ℕ → List (RepoRecordBlock C) → Type 0
  Reaches fuel level rs =
      All (λ r. (level ≤ repo_key_depth x r.path) × (repo_key_depth x r.path < level + fuel)) rs

  abbrev Deeper : ℕ → ℕ → List (RepoRecordBlock C × List (RepoRecordBlock C)) → Type 0
  Deeper fuel level [] = Unit
  Deeper fuel level ((r, range) ∷ rest) = Reaches fuel level range × Deeper fuel level rest

  -- What is left between the records of a level lies deeper.
  split_level-Deeper :
      (fuel level : ℕ) (rs : List (RepoRecordBlock C))
      → Reaches (suc fuel) level rs
      → Reaches fuel (suc level) (split_level x level rs).0
        × Deeper fuel (suc level) (split_level x level rs).1
  unfolding split_level
  split_level-Deeper fuel level [] h = (tt, tt)
  split_level-Deeper fuel level (r ∷ rest) h =
      let (front, entries) = split_level-Deeper fuel level rest h.1 in
      elim (Bool-cases (repo_key_depth x r.path == level)) [
        | inl here ↦ rw here (tt, (front, entries))
        | inr other ↦ rw other ((ground arith, front), entries)
      ]

module _ {C F N : Type 0} (x : Formats C F N) (fuel level : ℕ)
    (subtree : List (RepoRecordBlock C) → Run (C × List (CarBlock C)))
    (ends : (range : List (RepoRecordBlock C))
      → range ≢ []
      → Reaches x fuel level range
      → Returns (subtree range)) where
  subtree_of-Returns :
      (range : List (RepoRecordBlock C))
      → Reaches x fuel level range
      → Returns (subtree_of x subtree range)
  unfolding subtree_of
  subtree_of-Returns [] h = λ e. cc
  subtree_of-Returns (r ∷ rest) h =
      >>=-Returns (subtree (r ∷ rest)) _ (ends (r ∷ rest) (λ e. cc) h) (λ a e. cc)

  node_block-Returns :
      (left : Option C) (entries : List (Ipld C F)) → Returns (node_block x left entries)
  unfolding node_block
  node_block-Returns left entries =
      >>=-Returns (done (dag_cbor_bytes x (node_ipld x left entries))) _ (λ e. cc) (λ a e. cc)

  node_entries-Returns :
      (local : List (RepoRecordBlock C × List (RepoRecordBlock C))) (previous : Bytes)
      → Deeper x fuel level local
      → Returns (node_entries x subtree previous local)
  unfolding node_entries
  node_entries-Returns [] previous h = λ e. cc
  node_entries-Returns ((r, range) ∷ rest) previous h =
      >>=-Returns (subtree_of x subtree range) _ (subtree_of-Returns range h.0) (λ a.
        >>=-Returns (node_entries x subtree r.path rest) _ (node_entries-Returns rest r.path h.1)
          (λ b e. cc))

  mst_level-Returns :
      (records : List (RepoRecordBlock C))
      (parts : List (RepoRecordBlock C) × List (RepoRecordBlock C × List (RepoRecordBlock C)))
      → (parts.1 ≡ [] → Reaches x fuel level records)
      → Reaches x fuel level parts.0
      → Deeper x fuel level parts.1
      → Returns (mst_level x subtree records parts)
  unfolding mst_level mst_node_block
  mst_level-Returns [] parts whole front deeper =
      >>=-Returns (node_block x none []) _ (node_block-Returns none []) (λ a e. cc)
  mst_level-Returns (r ∷ rest) (first, []) whole front deeper =
      >>=-Returns (subtree (r ∷ rest)) _ (ends (r ∷ rest) (λ e. cc) (whole refl)) (λ a.
        >>=-Returns (node_block x (some a.0) []) _ (node_block-Returns (some a.0) []) (λ b e. cc))
  mst_level-Returns (r ∷ rest) (first, entry ∷ local) whole front deeper =
      >>=-Returns (subtree_of x subtree first) _ (subtree_of-Returns first front) (λ a.
        >>=-Returns (mst_node_block x subtree a.0 first (entry ∷ local)) _
          (>>=-Returns (subtree_of x subtree first) _ (subtree_of-Returns first front) (λ b.
            >>=-Returns (node_entries x subtree [] (entry ∷ local)) _
              (node_entries-Returns (entry ∷ local) [] deeper)
              (λ c. >>=-Returns (node_block x a.0 c.0) _ (node_block-Returns a.0 c.0) (λ d e. cc))))
          (λ b e. cc))

module _ {C F N : Type 0} (x : Formats C F N) where
  fuel_left :
      (fuel level : ℕ) (range : List (RepoRecordBlock C))
      → range ≢ []
      → Reaches x fuel level range
      → 0 < fuel
  fuel_left fuel level [] h reach = absurd (h refl)
  fuel_left fuel level (r ∷ rest) h reach = omega arith

  uncut :
      (level : ℕ) (records : List (RepoRecordBlock C))
      → (split_level x level records).1 ≡ []
      → (split_level x level records).0 ≡ records
  unfolding flat
  uncut level records e =
      sym (append-nil (split_level x level records).0)
      ∙ ap (λ t. (split_level x level records).0 ++ flat t) (sym e)
      ∙ split_level-flat x level records

  -- Started at a level that is not below any key's, with fuel beyond the deepest key, the writer
  -- returns (a tree, or the encoder's error).
  pub mst_subtree-Returns :
      (fuel : ℕ) (records : List (RepoRecordBlock C)) (level : ℕ)
      → 0 < fuel
      → Reaches x fuel level records
      → Returns (mst_subtree x fuel records level)
  unfolding mst_subtree
  mst_subtree-Returns zero records level h reach = absurd (omega arith)
  mst_subtree-Returns (suc fuel) records level h reach =
      let (front, deeper) = split_level-Deeper x fuel level records reach in
      mst_level-Returns x fuel (suc level) (λ range. mst_subtree x fuel range (suc level))
        (λ range some_record r.
          mst_subtree-Returns fuel range (suc level)
            (fuel_left fuel (suc level) range some_record r) r)
        records (split_level x level records)
        (λ e. subst (Reaches x fuel (suc level)) (uncut level records e) front) front deeper
