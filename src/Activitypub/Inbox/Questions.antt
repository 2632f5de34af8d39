-- ===== src/Activitypub/Inbox/Questions.antt =====
-- What the handlers of core/src/activitypub/inbox.rs ask the database.
use dais.Base.{Text, List, [], ◌∷◌, Bool, true, false, CoreResult, ok, ◌>>=◌}
use dais.Json.{Value, Members}
use dais.Formats.{Formats}
use dais.Activitypub.Federation.{Database, run_query, has_count}
use dais.Activitypub.Inbox.Queries.{count_following, select_our_post}

module _ {C F N : Type 0} (x : Formats C F N) (db : Database N) where
  unfoldable pub is_accepted_following : Text → CoreResult Bool
  is_accepted_following actor_id = do
    rows ← run_query x db count_following (Value.string actor_id ∷ [])
    ok (has_count x db rows)

  unfoldable pub is_some_row : List (Members N) → Bool
  is_some_row [] = false
  is_some_row (row ∷ rows) = true

  unfoldable pub is_reply_to_our_post : Text → CoreResult Bool
  unfolding is_some_row
  is_reply_to_our_post in_reply_to = do
    our_post_result ← run_query x db select_our_post (Value.string in_reply_to ∷ [])
    ok (is_some_row our_post_result)
