-- ===== src/Atproto/Car/Blocks.antt =====
-- The block map of a CAR file, and the map that a list of blocks builds.
use dais.Base.{Bytes, List, [], ◌∷◌, some, ◌≡◌, refl, arith, if◌then◌else◌, All}
use dais.Formats.{Formats, IsLawful}
use dais.Atproto.Car.{CarBlock, CarFile, find_block, insert_block, block}

module _ {C F N : Type 0} (x : Formats C F N) where
  -- The blocks that `decode_car` inserts, in order.
  unfoldable pub insert_blocks : List (CarBlock C) → List (C × Bytes) → List (C × Bytes)
  insert_blocks [] m = m
  insert_blocks (b ∷ rest) m = insert_blocks rest (insert_block x b.cid b.payload m)

  -- A block as the CAR file holds it.
  abbrev pub Holds : CarFile C → CarBlock C → Type 0
  Holds car b = block x car b.cid ≡ some b.payload

module _ {C F N : Type 0} (x : Formats C F N) (laws : IsLawful x) where
  -- An insertion binds its own CID and leaves the others.
  pub find_block-insert_block :
      (c d : C) (b : Bytes) (m : List (C × Bytes))
      → find_block x d (insert_block x c b m) ≡ (if x.cid_eq c d then some b else find_block x d m)
  unfolding find_block insert_block
  find_block-insert_block c d b [] = refl
  find_block-insert_block c d b ((e, v) ∷ rest) = ground (
    arith,
    laws.cid_eq_iff c d,
    laws.cid_eq_iff e d,
    laws.cid_eq_iff e c,
    laws.cid_eq_iff c c,
    laws.cid_eq_iff e e,
    find_block-insert_block c d b rest,
  )

  -- Blocks of one CID are one block (as they are where the CID is a hash of the bytes).
  abbrev pub Agrees : CarBlock C → CarBlock C → Type 0
  Agrees a b = a.cid ≡ b.cid → a.payload ≡ b.payload

  kept :
      (bs : List (CarBlock C)) (a : CarBlock C) (m : List (C × Bytes))
      → All (Agrees a) bs
      → find_block x a.cid m ≡ some a.payload
      → find_block x a.cid (insert_blocks x bs m) ≡ some a.payload
  unfolding insert_blocks
  kept [] a m agree h = h
  kept (b ∷ rest) a m agree h = kept rest a (insert_block x b.cid b.payload m) agree.1 (
      ground (
        arith,
        agree.0,
        find_block-insert_block b.cid a.cid b.payload m,
        laws.cid_eq_iff b.cid a.cid,
      ))

  -- Each block agrees with all that come after it.
  abbrev pub Consistent : List (CarBlock C) → Type 0
  Consistent [] = Unit
  Consistent (b ∷ rest) = All (Agrees b) rest × Consistent rest

  pub insert_blocks-All :
      (bs : List (CarBlock C)) (m : List (C × Bytes))
      → Consistent bs
      → All (λ b. find_block x b.cid (insert_blocks x bs m) ≡ some b.payload) bs
  unfolding insert_blocks
  insert_blocks-All [] m h = tt
  insert_blocks-All (b ∷ rest) m h = (
    kept rest b (insert_block x b.cid b.payload m) h.0 (
        ground
          (arith, find_block-insert_block b.cid b.cid b.payload m, laws.cid_eq_iff b.cid b.cid)),
    insert_blocks-All rest (insert_block x b.cid b.payload m) h.1,
  )
