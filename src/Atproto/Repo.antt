-- ===== src/Atproto/Repo.antt =====
-- core/src/atproto/repo.rs: the identity and the answers about the repository, and the snapshot
-- that is built from its records. Also the event helpers of core/src/atproto/sync.rs, which read
-- the same data.
pub mod Records
pub mod Snapshot
use dais.Base.{
  ℕ, Text, Bytes, bytes, List, [], ◌∷◌, ◌++◌, Bool, true, false, CoreResult, not_found, ok, err,
  text_eq, ◌||◌, if◌then◌else◌, max,
}
use dais.Atproto.Cbor.{invalid}
use dais.Atproto.Sync.{RepoOperation}

pub record AtprotoIdentity : Type 0 where
  pub did : Text
  pub handle : Text
  pub pds_hostname : Text

unfoldable pub matches_repo : AtprotoIdentity → Text → Bool
matches_repo identity repo = text_eq repo identity.did || text_eq repo identity.handle

unfoldable pub require_repo : AtprotoIdentity → Text → CoreResult (Unit {0})
unfolding matches_repo
require_repo identity repo =
    if matches_repo identity repo then ok tt else err (not_found (bytes "Repo not found"))

pub record RepoSnapshot : Type 0 where
  pub rev : Text
  pub commit_cid : Text
  pub car_bytes : Bytes

pub record RepoStats : Type 0 where
  pub head : Text
  pub rev : Text

pub record LatestCommitResponse : Type 0 where
  pub cid : Text
  pub rev : Text

pub record RepoStatusResponse : Type 0 where
  pub did : Text
  pub active : Bool
  pub status : Text
  pub rev : Text
  pub head : Text

pub record DidDocService : Type 0 where
  pub id : Text
  pub service_type : Text
  pub service_endpoint : Text

pub record RepoDidDoc : Type 0 where
  pub id : Text
  pub service : List DidDocService

pub record DescribeRepoResponse : Type 0 where
  pub handle : Text
  pub did : Text
  pub did_doc : RepoDidDoc
  pub collections : List Text
  pub handle_is_correct : Bool

abbrev pub supported_collections : List Text
supported_collections =
    bytes "app.bsky.actor.profile"
    ∷ bytes "app.bsky.feed.post"
    ∷ bytes "app.bsky.feed.like"
    ∷ bytes "app.bsky.feed.repost"
    ∷ bytes "app.bsky.graph.follow"
    ∷ []

unfoldable pub repo_stats : RepoSnapshot → RepoStats
repo_stats snapshot = record { head = snapshot.commit_cid; rev = snapshot.rev }

unfoldable pub get_repo : RepoSnapshot → CoreResult Bytes
get_repo snapshot = elim (snapshot.car_bytes) [
  | [] ↦ invalid (bytes "ATProto repo snapshot has no CAR bytes")
  | b ∷ rest ↦ ok (b ∷ rest)
]

unfoldable pub latest_commit : RepoStats → LatestCommitResponse
latest_commit stats = record { cid = stats.head; rev = stats.rev }

unfoldable pub repo_status : Text → RepoStats → RepoStatusResponse
repo_status repo stats = record {
  did = repo;
  active = true;
  status = bytes "active";
  rev = stats.rev;
  head = stats.head;
}

-- The field `repos` of the response.
unfoldable pub list_repos : AtprotoIdentity → RepoStats → List RepoStatusResponse
unfolding repo_status
list_repos identity stats = repo_status identity.did stats ∷ []

unfoldable pub describe_repo : AtprotoIdentity → DescribeRepoResponse
describe_repo identity = record {
  handle = identity.handle;
  did = identity.did;
  did_doc = record {
    id = identity.did;
    service =
        record {
          id = bytes "#atproto_pds";
          service_type = bytes "AtprotoPersonalDataServer";
          service_endpoint = bytes "https://" ++ identity.pds_hostname;
        }
        ∷ [];
  };
  collections = supported_collections;
  handle_is_correct = true;
}

pub record RepoCommitEvent : Type 0 where
  pub repo : Text
  pub rev : Text
  pub seq : ℕ
  pub time : Text
  pub commit : Text
  pub ops : List RepoOperation
  pub blobs : List Text

unfoldable pub commit_event :
    AtprotoIdentity → RepoStats → ℕ → Text → List RepoOperation → RepoCommitEvent
commit_event identity stats seq time ops = record {
  repo = identity.did;
  rev = stats.rev;
  seq = max seq 1;
  time = time;
  commit = stats.head;
  ops = ops;
  blobs = [];
}
