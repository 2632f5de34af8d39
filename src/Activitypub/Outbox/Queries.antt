-- ===== src/Activitypub/Outbox/Queries.antt =====
-- The queries of core/src/activitypub/outbox.rs for posts and their interactions.
use dais.Base.{
  Text, bytes, List, [], ◌∷◌, ◌++◌, Option, none, some, CoreResult, ok, err, internal, not_found,
  ◌>>=◌,
}
use dais.Json.{Value, Members, get_member, as_str}
use dais.Formats.{Formats}
use dais.Activitypub.Federation.{Database, run_query}
use dais.Activitypub.Outbox.Notes.{Post, PostInteractions, Reply, Interaction}

abbrev pub select_actor : Text
select_actor = bytes "SELECT id FROM actors WHERE username = ?1"

abbrev anonymous_public_post_sql_predicate : Text
anonymous_public_post_sql_predicate =
    bytes
      "visibility = 'public' AND encrypted_message IS NULL AND content NOT LIKE '%End-to-end encrypted message%'"

abbrev pub select_outbox_posts : Text
select_outbox_posts =
    bytes
      "\n        SELECT id, actor_id, content, content_html, COALESCE(object_type, 'Note') AS object_type,\n               name, summary, start_time, end_time, location, visibility, published_at, in_reply_to,\n               poll_options, media_attachments, atproto_uri, encrypted_message\n        FROM posts\n        WHERE actor_id = ?1\n          AND "
    ++ (anonymous_public_post_sql_predicate ++ bytes "\n        ORDER BY published_at DESC\n    ")

abbrev pub select_post : Text
select_post =
    bytes
      "\n        SELECT p.id, p.actor_id, p.content, p.content_html, COALESCE(p.object_type, 'Note') AS object_type,\n               p.name, p.summary, p.start_time, p.end_time, p.location, p.visibility,\n               p.published_at, p.in_reply_to, p.poll_options, p.media_attachments, p.atproto_uri,\n               p.encrypted_message\n        FROM posts p\n        JOIN actors a ON p.actor_id = a.id\n        WHERE p.id LIKE ?1 AND a.username = ?2\n    "

abbrev pub select_replies : Text
select_replies =
    bytes
      "\n        SELECT actor_username, actor_display_name, actor_avatar_url, content, published_at\n        FROM replies\n        WHERE post_id = ?1 AND (hidden IS NULL OR hidden = 0)\n        ORDER BY published_at ASC\n    "

abbrev pub select_likes : Text
select_likes =
    bytes
      "\n        SELECT actor_username, actor_display_name, actor_avatar_url\n        FROM interactions\n        WHERE (post_id = ?1 OR object_url = ?1) AND type = 'like'\n        ORDER BY created_at DESC\n    "

abbrev pub select_boosts : Text
select_boosts =
    bytes
      "\n        SELECT actor_username, actor_display_name, actor_avatar_url, created_at\n        FROM interactions\n        WHERE (post_id = ?1 OR object_url = ?1) AND type = 'boost'\n        ORDER BY created_at DESC\n    "

module _ {N : Type 0} where
  -- `row.get(column).and_then(|v| v.as_str())`
  unfoldable pub column_str : Text → Members N → Option Text
  column_str column row = as_str (get_member column row)

  unfoldable pub column_or : Text → Text → Members N → Text
  unfolding column_str
  column_or column default row = elim (column_str column row) [ none ↦ default | some t ↦ t ]

  unfoldable pub post_of : Members N → Post
  unfolding column_or column_str
  post_of row = record {
    id = column_or (bytes "id") [] row;
    actor_id = column_or (bytes "actor_id") [] row;
    content = column_or (bytes "content") [] row;
    content_html = column_str (bytes "content_html") row;
    object_type = column_or (bytes "object_type") (bytes "Note") row;
    name = column_str (bytes "name") row;
    summary = column_str (bytes "summary") row;
    start_time = column_str (bytes "start_time") row;
    end_time = column_str (bytes "end_time") row;
    location = column_str (bytes "location") row;
    poll_options = column_str (bytes "poll_options") row;
    visibility = column_or (bytes "visibility") (bytes "public") row;
    published_at = column_or (bytes "published_at") [] row;
    in_reply_to = column_str (bytes "in_reply_to") row;
    media_attachments = column_str (bytes "media_attachments") row;
    atproto_uri = column_str (bytes "atproto_uri") row;
    encrypted_message = column_str (bytes "encrypted_message") row;
  }

  unfoldable pub posts_of : List (Members N) → List Post
  posts_of [] = []
  posts_of (row ∷ rows) = post_of row ∷ posts_of rows

  reply_of : Members N → Reply
  unfolding column_or
  reply_of row = record {
    actor_username = column_or (bytes "actor_username") [] row;
    actor_display_name = column_or (bytes "actor_display_name") [] row;
    actor_avatar_url = column_or (bytes "actor_avatar_url") [] row;
    content = column_or (bytes "content") [] row;
    published_at = column_or (bytes "published_at") [] row;
  }

  replies_of : List (Members N) → List Reply
  unfolding reply_of
  replies_of [] = []
  replies_of (row ∷ rows) = reply_of row ∷ replies_of rows

  interaction_of : Option Text → Members N → Interaction
  unfolding column_or
  interaction_of created_at row = record {
    actor_username = column_or (bytes "actor_username") [] row;
    actor_display_name = column_or (bytes "actor_display_name") [] row;
    actor_avatar_url = column_or (bytes "actor_avatar_url") [] row;
    created_at = created_at;
  }

  likes_of : List (Members N) → List Interaction
  unfolding interaction_of
  likes_of [] = []
  likes_of (row ∷ rows) = interaction_of none row ∷ likes_of rows

  boosts_of : List (Members N) → List Interaction
  unfolding interaction_of column_str
  boosts_of [] = []
  boosts_of (row ∷ rows) = interaction_of (column_str (bytes "created_at") row) row ∷ boosts_of rows

  -- The identifier of the actor that the rows hold.
  unfoldable pub actor_id_of : Text → List (Members N) → CoreResult Text
  unfolding column_str
  actor_id_of username [] = err (not_found (bytes "Actor '" ++ (username ++ bytes "' not found")))
  actor_id_of username (row ∷ rows) = elim (column_str (bytes "id") row) [
    | some actor_id ↦ ok actor_id
    | none ↦ err (internal (bytes "Missing actor id"))
  ]

  first_post : Text → List (Members N) → CoreResult Post
  unfolding post_of
  first_post pattern [] = err (not_found (bytes "Post not found: " ++ pattern))
  first_post pattern (row ∷ rows) = ok (post_of row)

module _ {C F N : Type 0} (x : Formats C F N) (db : Database N) where
  unfoldable pub get_outbox_posts : Text → CoreResult (List Post)
  unfolding actor_id_of posts_of
  get_outbox_posts username = do
    actor_rows ← run_query x db select_actor (Value.string username ∷ [])
    actor_id ← actor_id_of username actor_rows
    rows ← run_query x db select_outbox_posts (Value.string actor_id ∷ [])
    ok (posts_of rows)

  unfoldable pub get_post : Text → Text → CoreResult Post
  unfolding first_post
  get_post username post_id_param =
      let post_path_pattern =
        bytes "%/users/" ++ (username ++ (bytes "/posts/" ++ post_id_param)) in
      run_query x db select_post (Value.string post_path_pattern ∷ Value.string username ∷ [])
      >>= first_post post_path_pattern

  unfoldable pub get_post_interactions : Text → CoreResult PostInteractions
  unfolding replies_of likes_of boosts_of
  get_post_interactions post_id = do
    reply_rows ← run_query x db select_replies (Value.string post_id ∷ [])
    like_rows ← run_query x db select_likes (Value.string post_id ∷ [])
    boost_rows ← run_query x db select_boosts (Value.string post_id ∷ [])
    ok (record {
      replies = replies_of reply_rows;
      likes = likes_of like_rows;
      boosts = boosts_of boost_rows;
    })
