-- ===== src/Activitypub/Outbox/Anonymous.antt =====
-- The outbox of core/src/activitypub/outbox.rs against the policy of core/src/activitypub/security.rs.
use dais.Base.{
  Text, bytes, List, [], ◌∷◌, none, some, true, false, ok, err, ◌≡◌, refl, sym, join, arith, ◌∙◌,
  ap, contains, text_eq, All, Result, map_err, platform, >>=-eq-ok, ok-injective,
}
use mathlib.Core.Path.{subst}
use dais.Json.{Value, Members, get_member, as_str}
use dais.Formats.{Formats}
use dais.Activitypub.Types.{Services}
use dais.Activitypub.Federation.{Database, run_query}
use dais.Activitypub.Security.{
  can_fetch_post, is_anonymous_public_post, is_none, e2ee_fallback_marker,
}
use dais.Activitypub.Inbox.Objects.{infer_note_visibility}
use dais.Activitypub.Outbox.Notes.{Post, build_note_object}
use dais.Activitypub.Outbox.Audience.{infer_note_visibility-build_note_object}
use dais.Activitypub.Outbox.Conditions.{
  Column, Condition, column_name, sql_of, outbox_statement, IsPlain, Meets, Filters,
}
use dais.Activitypub.Outbox.Queries.{
  column_or, column_str, select_outbox_posts, post_of, posts_of, get_outbox_posts, select_actor,
  actor_id_of,
}

-- The conditions that the policy for anonymous readers asks for.
abbrev public_conditions : List Condition
public_conditions =
    Condition.equals Column.visibility (bytes "public")
    ∷ Condition.is_null Column.encrypted_message
    ∷ Condition.not_like Column.content e2ee_fallback_marker
    ∷ []

abbrev IsPublicRow : {N : Type 0} → Members N → Type 0
IsPublicRow row = All (Meets row) public_conditions

-- The query of the outbox has just these conditions.
select_outbox_posts_eq : select_outbox_posts ≡ outbox_statement public_conditions
unfolding outbox_statement sql_of column_name join e2ee_fallback_marker bytes
select_outbox_posts_eq = refl

public_conditions-IsPlain : All IsPlain public_conditions
unfolding bytes e2ee_fallback_marker
public_conditions-IsPlain = (omega arith, (tt, (omega arith, tt)))

module _ {N : Type 0} where
  column_or-eq :
      (column default t : Text) (row : Members N)
      → get_member column row ≡ some (Value.string t)
      → column_or column default row ≡ t
  unfolding column_or column_str as_str
  column_or-eq column default t row e = rw (e, column_or) refl

  column_str-null :
      (column : Text) (row : Members N)
      → get_member column row ≡ some Value.null
      → column_str column row ≡ none
  unfolding column_str as_str
  column_str-null column row e = rw (e, column_str) refl

module _ {C F N : Type 0} (x : Formats C F N) (s : Services F N) where
  -- A post that readers without an account may see, and whose note says so.
  abbrev pub IsAnonymous : Post → Type 0
  IsAnonymous post =
      (can_fetch_post post.visibility post.encrypted_message post.content false ≡ true)
      × (infer_note_visibility (build_note_object x s post none) ≡ bytes "public")

  open_post-IsAnonymous :
      (post : Post)
      → post.visibility ≡ bytes "public"
      → post.encrypted_message ≡ none
      → contains post.content e2ee_fallback_marker ≡ false
      → IsAnonymous post
  unfolding can_fetch_post is_anonymous_public_post is_none text_eq bytes
  open_post-IsAnonymous post public encrypted clear = (
    rw (public, encrypted, clear) refl,
    infer_note_visibility-build_note_object x s post none ∙ rw public refl,
  )

  post_of-IsAnonymous : (row : Members N) → IsPublicRow row → IsAnonymous (post_of row)
  unfolding post_of column_name
  post_of-IsAnonymous row (public, (encrypted, ((content, same, clear), u))) =
      open_post-IsAnonymous (post_of row)
        (column_or-eq (bytes "visibility") (bytes "public") (bytes "public") row public)
        (column_str-null (bytes "encrypted_message") row encrypted)
        (ap (λ t. contains t e2ee_fallback_marker)
            (column_or-eq (bytes "content") [] content row same)
          ∙ clear)

  posts_of-IsAnonymous :
      (rows : List (Members N)) → All IsPublicRow rows → All IsAnonymous (posts_of rows)
  unfolding posts_of
  posts_of-IsAnonymous [] p = tt
  posts_of-IsAnonymous (row ∷ rows) p = (post_of-IsAnonymous row p.0, posts_of-IsAnonymous rows p.1)

  module _ (db : Database N) where
    ran :
        (r : Result Text (List (Members N))) (rows : List (Members N))
        → map_err platform r ≡ ok rows
        → r ≡ ok rows
    ran (ok a) rows h = ap ok (ok-injective h)
    ran (err e) rows h = cc

    -- If the database filters the rows of an answer by the conditions of the statement, then every post
    -- that get_outbox_posts returns may be fetched by a reader who is no follower, and its note is read
    -- as a public one.
    pub get_outbox_posts-IsAnonymous :
        Filters db
        → (username : Text) (posts : List Post) → get_outbox_posts x db username ≡ ok posts
        → All IsAnonymous posts
    unfolding get_outbox_posts
    get_outbox_posts-IsAnonymous filters username posts h =
        let (actors, e1, h1) =
          >>=-eq-ok (run_query x db select_actor (Value.string username ∷ [])) _ h in
        let (actor_id, e2, h2) = >>=-eq-ok (actor_id_of username actors) _ h1 in
        let (rows, e3, h3) =
          >>=-eq-ok (run_query x db select_outbox_posts (Value.string actor_id ∷ [])) _ h2 in
        let params : List (Value N) = Value.string actor_id ∷ [] in
        let answered : db.execute (outbox_statement public_conditions) params ≡ ok rows =
          ap (λ sql. db.execute sql params) (sym select_outbox_posts_eq)
          ∙ (unfold run_query in ran _ rows e3) in
        subst (All IsAnonymous) (ok-injective h3) (
          posts_of-IsAnonymous rows
            (filters public_conditions params rows public_conditions-IsPlain answered))
