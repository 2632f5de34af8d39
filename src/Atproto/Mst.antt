-- ===== src/Atproto/Mst.antt =====
-- core/src/atproto/mst.rs: decoding a commit and the nodes of its Merkle search tree, the lookup
-- of a key, and the changes of a commit read off its tree.
pub mod Changes
pub mod Backing
pub mod Faults
use dais.Base
use dais.Base.{
  ℕ, zero, suc, ◌+◌, ◌%◌, Text, Bytes, bytes, List, [], ◌∷◌, ◌++◌, Option, none, some, lt, eq, gt,
  CoreError, CoreResult, invalid_at_proto, ok, err, map_err, ok_or, collect, ◌>>=◌, length, ltb,
  text_cmp, if◌then◌else◌,
}
use dais.Base.Run.{Run}
use dais.Ipld.{Ipld, ℤ, pos, negsuc, integer, get, to_list}
use dais.Formats.{Formats}
use dais.Atproto.Cbor.{
  invalid, require_map, require_string, require_link, require_raw, require_list, optional_link,
}
use dais.Atproto.Car.{CarFile, block}

-- The field `data` of the source is `data_root` here.
pub record CommitData (C : Type 0) : Type 0 where
  pub did : Text
  pub rev : Text
  pub prev : Option C
  pub data_root : C

pub record MstEntry (C : Type 0) : Type 0 where
  pub prefix_len : ℕ
  pub key_suffix : Bytes
  pub value : C
  pub right : Option C

pub record MstNode (C : Type 0) : Type 0 where
  pub left : Option C
  pub entries : List (MstEntry C)

-- Where the loop over a node's entries leaves off: at the key, or in a gap between two keys.
pub data Found (C : Type 0) : Type 0 where
  hit : C → Found C
  gap : Option C → Found C

unfoldable pub apply_prefix : Bytes → ℕ → Bytes → CoreResult Bytes
apply_prefix previous_key prefix_len suffix =
    if ltb (length previous_key) prefix_len
    then invalid (bytes "MST entry prefix length exceeds the previous key")
    else ok (Base.take prefix_len previous_key ++ suffix)

module _ {C : Type 0} where
  -- The `for` loop of `mst_get`.
  unfoldable pub scan_entries : List (MstEntry C) → Bytes → Option C → Bytes → CoreResult (Found C)
  scan_entries [] previous_key gap_link target_key = ok (gap gap_link)
  scan_entries (entry ∷ rest) previous_key gap_link target_key = do
    full_key ← apply_prefix previous_key entry.prefix_len entry.key_suffix
    elim (text_cmp target_key full_key) [
      | eq ↦ ok (hit entry.value)
      | lt ↦ ok (gap gap_link)
      | gt ↦ scan_entries rest full_key entry.right target_key
    ]

module _ {C F N : Type 0} (x : Formats C F N) where
  -- A block that must be there, decoded into a map; the three messages of its refusals.
  read_map : CarFile C → C → Text → Text → Text → CoreResult (dais.Ipld.Fields C F)
  read_map car cid absent undecoded unmapped = do
    b ← ok_or (invalid_at_proto absent) (block x car cid)
    value ← map_err (λ e. invalid_at_proto (undecoded ++ e)) (x.from_slice b)
    require_map unmapped value

  unfoldable pub decode_commit : CarFile C → C → CoreResult (CommitData C)
  unfolding read_map
  decode_commit car commit_cid = do
    fields ←
        read_map car commit_cid
          (bytes "commit block " ++ x.cid_text commit_cid ++ bytes " not present in CAR")
          (bytes "commit block is not DAG-CBOR: ") (bytes "commit block must be a CBOR map")
    did ← require_string (bytes "did") (bytes "commit block is missing did") fields
    rev ← require_string (bytes "rev") (bytes "commit block is missing rev") fields
    let prev = optional_link (bytes "prev") fields
    root ← require_link (bytes "data") (bytes "commit block is missing data root") fields
    ok (record { did = did; rev = rev; prev = prev; data_root = root })

  -- `value as usize` wraps.
  prefix_of : Option (Ipld C F) → CoreResult ℕ
  prefix_of (some (integer (pos n))) = ok (n % x.usize_range)
  prefix_of o = invalid (bytes "MST entry has an invalid prefix length")

  unfoldable pub decode_mst_entry : Ipld C F → CoreResult (MstEntry C)
  unfolding prefix_of
  decode_mst_entry entry = do
    fields ← require_map (bytes "MST entry must be a CBOR map") entry
    prefix_len ← prefix_of (get (bytes "p") fields)
    key_suffix ← require_raw (bytes "k") (bytes "MST entry is missing its key suffix") fields
    value ← require_link (bytes "v") (bytes "MST entry is missing its value link") fields
    let right = optional_link (bytes "t") fields
    ok (record { prefix_len = prefix_len; key_suffix = key_suffix; value = value; right = right })

  unfoldable pub decode_mst_node : CarFile C → C → CoreResult (MstNode C)
  unfolding read_map
  decode_mst_node car cid = do
    fields ←
        read_map car cid (bytes "MST node " ++ x.cid_text cid ++ bytes " not present in CAR")
          (bytes "MST node is not DAG-CBOR: ") (bytes "MST node must be a CBOR map")
    let left = optional_link (bytes "l") fields
    items ← require_list (bytes "e") (bytes "MST node is missing entries") fields
    entries ← collect decode_mst_entry (to_list items)
    ok (record { left = left; entries = entries })

  -- One node of the search.
  unfoldable pub search_node : CarFile C → C → Bytes → CoreResult (Found C)
  search_node car root target_key = do
    node ← decode_mst_node car root
    scan_entries node.entries [] node.left target_key

  -- The fuel is the number of nodes that may be read.
  unfoldable pub mst_get : ℕ → CarFile C → C → Bytes → Run (Option C)
  mst_get zero car root target_key = none
  mst_get (suc fuel) car root target_key = elim (search_node car root target_key) [
    | err e ↦ some (err e)
    | ok (hit value) ↦ some (ok (some value))
    | ok (gap none) ↦ some (ok none)
    | ok (gap (some child)) ↦ mst_get fuel car child target_key
  ]
