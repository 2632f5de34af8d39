-- ===== src/Activitypub/Outbox/Conditions.antt =====
-- SQL conditions on the table of posts: their text, and what they say of a row.
use dais.Base.{Text, bytes, List, [], ◌∷◌, ◌++◌, some, false, ◌≡◌, ◌≢◌, contains, join, All}
use dais.Json.{Value, Members, get_member}
use dais.Activitypub.Federation.{Database}
use dais.Base.{ok}

-- Columns that the query of the outbox selects as they are.
pub data Column : Type 0 where
  visibility encrypted_message content : Column

unfoldable pub column_name : Column → Text
column_name visibility = bytes "visibility"
column_name encrypted_message = bytes "encrypted_message"
column_name content = bytes "content"

pub data Condition : Type 0 where
  equals : Column → Text → Condition
  is_null : Column → Condition
  not_like : Column → Text → Condition

unfoldable pub sql_of : Condition → Text
unfolding column_name
sql_of (equals c t) = column_name c ++ (bytes " = '" ++ (t ++ bytes "'"))
sql_of (is_null c) = column_name c ++ bytes " IS NULL"
sql_of (not_like c t) = column_name c ++ (bytes " NOT LIKE '%" ++ (t ++ bytes "%'"))

unfoldable pub texts_of : List Condition → List Text
texts_of [] = []
texts_of (c ∷ cs) = sql_of c ∷ texts_of cs

-- The statement of the outbox, with other conditions in the place of its own.
unfoldable pub outbox_statement : List Condition → Text
unfolding texts_of
outbox_statement conditions =
    bytes
      "\n        SELECT id, actor_id, content, content_html, COALESCE(object_type, 'Note') AS object_type,\n               name, summary, start_time, end_time, location, visibility, published_at, in_reply_to,\n               poll_options, media_attachments, atproto_uri, encrypted_message\n        FROM posts\n        WHERE actor_id = ?1\n          AND "
    ++ (join (bytes " AND ") (texts_of conditions)
        ++ bytes "\n        ORDER BY published_at DESC\n    ")

-- A text that stands for itself in a string of SQL and in a pattern of LIKE: no quote, percent sign,
-- underscore or backslash.
abbrev pub IsLiteral : Text → Type 0
IsLiteral t = All (λ c. (c ≢ 39) × (c ≢ 37) × (c ≢ 95) × (c ≢ 92)) t

abbrev pub IsPlain : Condition → Type 0
IsPlain (equals c t) = IsLiteral t
IsPlain (is_null c) = Unit
IsPlain (not_like c t) = IsLiteral t

-- What a condition says of a row. A value that is NULL meets neither a comparison nor NOT LIKE.
abbrev pub Meets : {N : Type 0} → Members N → Condition → Type 0
Meets row (equals c t) = get_member (column_name c) row ≡ some (Value.string t)
Meets row (is_null c) = get_member (column_name c) row ≡ some Value.null
Meets row (not_like c t) =
    (u : Text) × (get_member (column_name c) row ≡ some (Value.string u)) × (contains u t ≡ false)

-- A database that filters: each row of an answer meets each condition of the statement.
abbrev pub Filters : {N : Type 0} → Database N → Type 0
Filters {N} db =
    (conditions : List Condition) (params : List (Value N)) (rows : List (Members N))
    → All IsPlain conditions
    → db.execute (outbox_statement conditions) params ≡ ok rows
    → All (λ row. All (Meets row) conditions) rows
