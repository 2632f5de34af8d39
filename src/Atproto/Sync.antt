-- ===== src/Atproto/Sync.antt =====
-- core/src/atproto/sync.rs: the operations of a commit.
use dais.Base.{Text, bytes, Option, none, some}

pub record RepoOperation : Type 0 where
  pub action : Text
  pub path : Text
  pub cid : Option Text

unfoldable pub create : Text → Text → RepoOperation
create path cid = record { action = bytes "create"; path = path; cid = some cid }

unfoldable pub update : Text → Text → RepoOperation
update path cid = record { action = bytes "update"; path = path; cid = some cid }

unfoldable pub delete : Text → RepoOperation
delete path = record { action = bytes "delete"; path = path; cid = none }
