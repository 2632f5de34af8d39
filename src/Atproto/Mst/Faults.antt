-- ===== src/Atproto/Mst/Faults.antt =====
-- Archives that no writer made: what the reader of the tree does with labels that are not hashes.
use dais.Base.{ℕ, zero, suc, Bytes, [], Option, none, some, ok, ◌≡◌, refl, arith}
use dais.Base.Run.{return}
use dais.Formats.{Formats}
use dais.Atproto.Car.{CarFile}
use dais.Atproto.Mst.{gap, search_node, mst_get, decode_mst_node, scan_entries}

module _ {C F N : Type 0} (x : Formats C F N) (car : CarFile C) (root : C) where
  search_through :
      (link : Option C) (key : Bytes)
      → decode_mst_node x car root ≡ ok (record { left = link; entries = [] })
      → search_node x car root key ≡ ok (gap link)
  unfolding search_node scan_entries
  search_through link key e = rw e

  -- A node without entries whose left link is its own label is followed for ever: no fuel is
  -- enough for the lookup of any key.
  pub mst_get_loop :
      (fuel : ℕ) (key : Bytes)
      → decode_mst_node x car root ≡ ok (record { left = some root; entries = [] })
      → mst_get x fuel car root key ≡ none
  unfolding mst_get
  mst_get_loop zero key e = refl
  mst_get_loop (suc fuel) key e =
      ground (arith, search_through (some root) key e, mst_get_loop fuel key e)

  -- An empty node ends the lookup of any key with the answer that it is absent.
  pub mst_get_empty :
      (fuel : ℕ) (key : Bytes)
      → decode_mst_node x car root ≡ ok (record { left = none; entries = [] })
      → mst_get x (suc fuel) car root key ≡ return none
  unfolding mst_get
  mst_get_empty fuel key e = ground (arith, search_through none key e)
