-- ===== src/Atproto/Tree/Lookup.antt =====
-- Sorted records as a map from paths to CIDs: what the tree promises.
use dais.Base.{
  ℕ, Bytes, List, [], ◌∷◌, ◌++◌, Option, none, some, lt, ◌≡◌, refl, arith, All, All-append_left,
  All-append_right, text_eq, text_eq_iff, text_cmp, text_cmp_refl, text_cmp_trans, All-imp,
  if◌then◌else◌,
}
use dais.Formats.{Formats}
use dais.Atproto.Tree.{RepoRecordBlock, split_level}

module _ {C : Type 0} where
  -- The CID of the first record at a path.
  unfoldable pub lookup : List (RepoRecordBlock C) → Bytes → Option C
  lookup [] key = none
  lookup (r ∷ rest) key = if text_eq r.path key then some r.cid else lookup rest key

  abbrev pub Below : Bytes → List (RepoRecordBlock C) → Type 0
  Below key rs = All (λ r. text_cmp r.path key ≡ lt) rs

  abbrev pub Above : Bytes → List (RepoRecordBlock C) → Type 0
  Above key rs = All (λ r. text_cmp key r.path ≡ lt) rs

  -- Strictly ascending paths.
  abbrev pub IsSorted : List (RepoRecordBlock C) → Type 0
  IsSorted [] = Unit
  IsSorted (r ∷ rest) = Above r.path rest × IsSorted rest

  pub lookup-Below :
      (a b : List (RepoRecordBlock C)) (key : Bytes)
      → Below key a
      → lookup (a ++ b) key ≡ lookup b key
  unfolding lookup
  lookup-Below [] b key h = refl
  lookup-Below (r ∷ a) b key h =
      ground (arith, text_eq_iff r.path key, text_cmp_refl key, lookup-Below a b key h.1)

  pub lookup-Above :
      (a b : List (RepoRecordBlock C)) (key : Bytes)
      → Above key b
      → lookup (a ++ b) key ≡ lookup a key
  unfolding lookup
  lookup-Above [] [] key h = refl
  lookup-Above [] (r ∷ b) key h =
      ground (arith, text_eq_iff r.path key, text_cmp_refl key, lookup-Above [] b key h.1)
  lookup-Above (r ∷ a) b key h = ground (arith, lookup-Above a b key h)

  pub lookup_here :
      (r : RepoRecordBlock C) (rest : List (RepoRecordBlock C))
      → lookup (r ∷ rest) r.path ≡ some r.cid
  unfolding lookup
  lookup_here r rest = ground (arith, text_eq_iff r.path r.path)

  -- What stands before a record, and behind it.
  pub IsSorted-before :
      (a : List (RepoRecordBlock C)) (r : RepoRecordBlock C) (rest : List (RepoRecordBlock C))
      → IsSorted (a ++ (r ∷ rest))
      → Below r.path a × IsSorted (r ∷ rest)
  IsSorted-before [] r rest h = (tt, h)
  IsSorted-before (s ∷ a) r rest h =
      let (below, sorted) = IsSorted-before a r rest h.1 in
      (((All-append_right _ a (r ∷ rest) h.0).0, below), sorted)

  pub IsSorted-left : (a b : List (RepoRecordBlock C)) → IsSorted (a ++ b) → IsSorted a
  IsSorted-left [] b h = tt
  IsSorted-left (r ∷ a) b h = (All-append_left _ a b h.0, IsSorted-left a b h.1)

  pub IsSorted-right : (a b : List (RepoRecordBlock C)) → IsSorted (a ++ b) → IsSorted b
  IsSorted-right [] b h = h
  IsSorted-right (r ∷ a) b h = IsSorted-right a b h.1

  pub Below-trans :
      (a : List (RepoRecordBlock C)) (p key : Bytes) → Below p a → text_cmp p key ≡ lt → Below key a
  Below-trans a p key h k = All-imp (λ r e. text_cmp_trans r.path p key e k) a h

  pub Above-trans :
      (a : List (RepoRecordBlock C)) (p key : Bytes) → Above p a → text_cmp key p ≡ lt → Above key a
  Above-trans a p key h k = All-imp (λ r e. text_cmp_trans key p r.path k e) a h

  -- The records of a node's entries, each with the range behind it.
  unfoldable pub flat :
      List (RepoRecordBlock C × List (RepoRecordBlock C)) → List (RepoRecordBlock C)
  flat [] = []
  flat ((r, range) ∷ rest) = r ∷ (range ++ flat rest)

module _ {C F N : Type 0} (x : Formats C F N) where
  -- Cutting a range at the records of a level keeps the records and their order.
  pub split_level-flat :
      (level : ℕ) (rs : List (RepoRecordBlock C))
      → (split_level x level rs).0 ++ flat (split_level x level rs).1 ≡ rs
  unfolding split_level flat
  split_level-flat level [] = refl
  split_level-flat level (r ∷ rest) = ground (arith, split_level-flat level rest)
