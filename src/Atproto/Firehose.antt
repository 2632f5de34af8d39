-- ===== src/Atproto/Firehose.antt =====
-- core/src/atproto/firehose.rs: decoding a frame of `com.atproto.sync.subscribeRepos`, and records
-- as JSON.
pub mod Json
pub mod RoundTrip
use dais.Base.{
  ℕ, ◌%◌, ◌^◌, Text, Bytes, bytes, List, [], ◌∷◌, ◌++◌, Option, none, some, CoreResult,
  invalid_at_proto, ok, map_err, collect, text_eq, not, if◌then◌else◌, ◌>>=◌, ◌>>◌,
}
use dais.Ipld.{Ipld, Fields, pos, integer, get, to_list}
use dais.Formats.{Formats}
use dais.Atproto.Cbor.{
  invalid, require_map, require_string, require_link, require_raw, require_list, optional_link,
}
use dais.Atproto.Car.{CarFile, decode_car}
use dais.Atproto.Sync.{RepoOperation}

pub record CommitFrame (C : Type 0) : Type 0 where
  pub seq : ℕ
  pub repo_did : Text
  pub rev : Text
  pub commit_cid : C
  pub ops : List RepoOperation
  pub car : CarFile C

pub data FirehoseEvent (C : Type 0) : Type 0 where
  commit : CommitFrame C → FirehoseEvent C
  other : Text → FirehoseEvent C

module _ {C F N : Type 0} (x : Formats C F N) where
  -- `*value as u64` wraps.
  seq_of : Option (Ipld C F) → CoreResult ℕ
  seq_of (some (integer (pos n))) = ok (n % 2 ^ 64)
  seq_of o = invalid (bytes "#commit payload is missing seq")

  cid_text_of : Option C → Option Text
  cid_text_of none = none
  cid_text_of (some cid) = some (x.cid_text cid)

  unfoldable pub decode_op : Ipld C F → CoreResult RepoOperation
  unfolding cid_text_of
  decode_op op = do
    fields ← require_map (bytes "commit op must be a CBOR map") op
    action ← require_string (bytes "action") (bytes "commit op is missing action") fields
    path ← require_string (bytes "path") (bytes "commit op is missing path") fields
    let cid = cid_text_of (optional_link (bytes "cid") fields)
    ok (record { action = action; path = path; cid = cid })

  unfoldable pub decode_commit_frame : Ipld C F → CoreResult (CommitFrame C)
  unfolding seq_of
  decode_commit_frame payload = do
    fields ← require_map (bytes "#commit payload must be a CBOR map") payload
    seq ← seq_of (get (bytes "seq") fields)
    repo_did ← require_string (bytes "repo") (bytes "#commit payload is missing repo") fields
    rev ← require_string (bytes "rev") (bytes "#commit payload is missing rev") fields
    commit_cid ←
        require_link (bytes "commit") (bytes "#commit payload is missing its commit link") fields
    blocks ← require_raw (bytes "blocks") (bytes "#commit payload is missing blocks") fields
    items ← require_list (bytes "ops") (bytes "#commit payload is missing ops") fields
    ops ← collect decode_op (to_list items)
    car ← decode_car x blocks
    ok (record {
      seq = seq;
      repo_did = repo_did;
      rev = rev;
      commit_cid = commit_cid;
      ops = ops;
      car = car;
    })

  -- What follows the two values.
  event_of : Text → Ipld C F → CoreResult (FirehoseEvent C)
  event_of kind payload =
      if not (text_eq kind (bytes "#commit"))
      then ok (other kind)
      else (do frame ← decode_commit_frame payload; ok (commit frame))

  no_more : Bytes → CoreResult (Unit {0})
  no_more [] = ok tt
  no_more (b ∷ rest) = invalid (bytes "firehose frame has trailing bytes after its two CBOR values")

  unfoldable pub decode_frame : Bytes → CoreResult (FirehoseEvent C)
  unfolding event_of no_more
  decode_frame input = do
    (header, reader) ←
        map_err (λ e. invalid_at_proto (bytes "firehose frame header is not DAG-CBOR: " ++ e))
          (x.read_value input)
    header_fields ← require_map (bytes "firehose frame header must be a CBOR map") header
    kind ←
        require_string (bytes "t") (bytes "firehose frame header is missing its event kind")
          header_fields
    (payload, reader) ←
        map_err (λ e. invalid_at_proto (bytes "firehose frame payload is not DAG-CBOR: " ++ e))
          (x.read_value reader)
    no_more reader
    event_of kind payload
