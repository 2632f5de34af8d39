-- ===== src/Atproto/Mst/Changes.antt =====
-- `extract_commit_changes` of core/src/atproto/mst.rs.
use dais.Base.{
  ℕ, Text, Bytes, bytes, List, ◌++◌, Option, none, some, CoreResult, invalid_at_proto, ok, map_err,
  ok_or, text_eq, ◌&&◌, not, if◌then◌else◌, ◌>>=◌, ◌>>◌,
}
use dais.Base.Run
use dais.Base.Run.{Run, done}
use dais.Formats.{Formats}
use dais.Atproto.Cbor.{invalid}
use dais.Atproto.Car.{CarFile, block}
use dais.Atproto.Sync.{RepoOperation}
use dais.Atproto.Mst.{decode_commit, mst_get}

pub data RepoChange (C : Type 0) : Type 0 where
  created : Text → C → Bytes → RepoChange C
  updated : Text → C → Bytes → RepoChange C
  deleted : Text → RepoChange C

module _ {C : Type 0} where
  unfoldable pub path : RepoChange C → Text
  path (created p cid record_bytes) = p
  path (updated p cid record_bytes) = p
  path (deleted p) = p

module _ {C F N : Type 0} (x : Formats C F N) where
  -- An operation that declares a CID must declare the one in the tree.
  unfoldable pub check_declared : RepoOperation → Option Text → C → CoreResult (Unit {0})
  check_declared op none found = ok tt
  check_declared op (some declared) found = do
    declared_cid ←
        map_err (λ e. invalid_at_proto (bytes "invalid op cid '" ++ declared ++ bytes "': " ++ e))
          (x.parse_cid declared)
    if x.cid_eq declared_cid found
        then ok tt
        else invalid (
            bytes "commit op cid mismatch for '"
            ++ op.path
            ++ bytes "': op declared "
            ++ x.cid_text declared_cid
            ++ bytes ", MST has "
            ++ x.cid_text found)

  -- What follows the lookup of a created or updated path.
  unfoldable pub change_of : CarFile C → RepoOperation → Option C → CoreResult (RepoChange C)
  unfolding check_declared
  change_of car op looked_up = do
    found ←
        ok_or
          (invalid_at_proto (bytes "commit op for '" ++ op.path ++ bytes "' not found in its MST"))
          looked_up
    check_declared op op.cid found
    record_bytes ←
        ok_or
          (invalid_at_proto (
            bytes "record block "
            ++ x.cid_text found
            ++ bytes " for '"
            ++ op.path
            ++ bytes "' not present in CAR"))
          (block x car found)
    ok (
        if text_eq op.action (bytes "create")
        then created op.path found record_bytes
        else updated op.path found record_bytes)

  unfoldable pub extract_one_change : ℕ → CarFile C → C → RepoOperation → Run (RepoChange C)
  extract_one_change fuel car data_root op =
      if text_eq op.action (bytes "delete")
      then done (ok (deleted op.path))
      else if not (text_eq op.action (bytes "create")) && not (text_eq op.action (bytes "update"))
      then done (invalid (bytes "unsupported repo op action: " ++ op.action))
      else Run.◌>>=◌ (mst_get x fuel car data_root op.path) (λ found. done (change_of car op found))

  unfoldable pub extract_commit_changes :
      ℕ → CarFile C → C → List RepoOperation → Run (List (RepoChange C))
  extract_commit_changes fuel car commit_cid ops =
      Run.◌>>=◌ (done (decode_commit x car commit_cid))
        (λ commit. Run.collect (extract_one_change fuel car commit.data_root) ops)
