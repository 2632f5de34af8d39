-- ===== src/Atproto/Tree/Entries.antt =====
-- The entries of a node, as `mst_node_block` writes them and `decode_mst_node` reads them.

use dais.Base.{
  ℕ, ◌<◌, ◌≤◌, Bytes, bytes, List, [], ◌∷◌, ◌++◌, Option, none, some, ok, ◌≡◌, refl, arith, length,
  collect, text_cmp, text_eq, take, drop,
}
use dais.Ipld.{Ipld, get, insert, insert_all, to_list-of_list}
use dais.Formats.{Formats, IsLawful}
use dais.Atproto.Cbor.{
  dag_cbor_bytes, map_ipld, require_map, require_link, require_raw, require_list, optional_link,
  from_slice-dag_cbor_bytes,
}
use dais.Atproto.Car.{CarFile, block}
use dais.Atproto.Mst.{MstEntry, apply_prefix, decode_mst_entry, decode_mst_node}
use dais.Atproto.Tree.{common_prefix_len, entry_ipld, node_ipld}
use native.Mathlib.Nat.{mod-eq_of_lt}

common_prefix_len-le : (a b : Bytes) → common_prefix_len a b ≤ length a
unfolding common_prefix_len
common_prefix_len-le [] b = omega arith
common_prefix_len-le (a ∷ as') [] = omega arith
common_prefix_len-le (a ∷ as') (b ∷ bs) = ground (arith, common_prefix_len-le as' bs)

pub common_prefix_len-le_right : (a b : Bytes) → common_prefix_len a b ≤ length b
unfolding common_prefix_len
common_prefix_len-le_right [] b = omega arith
common_prefix_len-le_right (a ∷ as') [] = omega arith
common_prefix_len-le_right (a ∷ as') (b ∷ bs) = ground (arith, common_prefix_len-le_right as' bs)

take-common : (a b : Bytes) → take (common_prefix_len a b) a ++ drop (common_prefix_len a b) b ≡ b
unfolding common_prefix_len
take-common [] b = refl
take-common (a ∷ as') [] = refl
take-common (a ∷ as') (b ∷ bs) = ground (arith, take-common as' bs)

-- A key is rebuilt from the key before it, the shared length and its own suffix.
pub apply_prefix-common :
    (previous key : Bytes)
    → let n = common_prefix_len previous key in apply_prefix previous n (drop n key) ≡ ok key
unfolding apply_prefix
apply_prefix-common previous key =
    ground (arith, common_prefix_len-le previous key, take-common previous key)

module _ {C F N : Type 0} (x : Formats C F N) where
  -- An entry is read as it was written, if its prefix length fits `usize`.
  pub decode_mst_entry-entry_ipld :
      (n : ℕ) (suffix : Bytes) (value : C) (right : Option C)
      → n < x.usize_range
      → decode_mst_entry x (entry_ipld x n suffix value right)
        ≡ ok (record { prefix_len = n; key_suffix = suffix; value = value; right = right })
  unfolding decode_mst_entry entry_ipld require_map require_raw require_link optional_link get
      insert text_cmp text_eq bytes
  decode_mst_entry-entry_ipld n suffix value none h = rw (mod-eq_of_lt h)
  decode_mst_entry-entry_ipld n suffix value (some child) h = rw (mod-eq_of_lt h)

module _ {C F N : Type 0} (x : Formats C F N) (laws : IsLawful x) where
  -- A node that the archive holds as it was written is read with its left link and its entries, if
  -- those are read.
  pub decode_mst_node-node_ipld :
      (car : CarFile C) (cid : C) (payload : Bytes) (left : Option C) (entries : List (Ipld C F))
      (decoded : List (MstEntry C))
      → block x car cid ≡ some payload
      → dag_cbor_bytes x (node_ipld x left entries) ≡ ok payload
      → collect (decode_mst_entry x) entries ≡ ok decoded
      → decode_mst_node x car cid ≡ ok (record { left = left; entries = decoded })
  unfolding decode_mst_node node_ipld map_ipld require_map require_list optional_link get insert
      insert_all text_cmp text_eq bytes
  decode_mst_node-node_ipld car cid payload none entries decoded held written read =
      rw (held, from_slice-dag_cbor_bytes x laws _ payload written, to_list-of_list, read)
  decode_mst_node-node_ipld car cid payload (some l) entries decoded held written read =
      rw (held, from_slice-dag_cbor_bytes x laws _ payload written, to_list-of_list, read)
