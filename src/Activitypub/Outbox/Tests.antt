-- ===== src/Activitypub/Outbox/Tests.antt =====
-- Concrete posts and rows, for core/src/activitypub/outbox.rs.
use dais.Base.{
  ℕ, Text, bytes, List, [], ◌∷◌, none, some, ok, err, ◌≡◌, refl, length, All, Result, contains,
  starts_with, text_eq,
}
use mathlib.Core.Path.{subst}
use dais.Json.{Value, Members, get_member, as_str}
use dais.Activitypub.Federation.{Database, run_query}
use dais.Activitypub.Outbox.Queries.{
  select_outbox_posts, column_str, post_of, posts_of, actor_id_of, get_outbox_posts,
}
use dais.Base.{sym, ◌∙◌, inl, inr, Bool-cases, text_eq_iff, join, if◌then◌else◌}
use dais.Activitypub.Outbox.Conditions.{
  Condition, IsPlain, Meets, Filters, outbox_statement, sql_of, column_name, texts_of,
}
use dais.Activitypub.Outbox.Reading.{
  three_conditions, outbox_statement-injective, outbox_statement-ne,
}
use dais.Activitypub.Outbox.Anonymous.{IsAnonymous, get_outbox_posts-IsAnonymous}
use dais.Sample.{sample}
use dais.Activitypub.Types.{Services}
use dais.Activitypub.Inbox.Objects.{infer_note_visibility}
use dais.Activitypub.Outbox.Tags.{activity_tags}
use dais.Activitypub.Outbox.Notes.{Post, build_note_object}
use dais.Activitypub.Outbox.Audience.{told, infer_note_visibility-build_note_object}

abbrev services : Services ℕ ℕ
services = record {
  fetch = λ request. err (bytes "offline");
  from_utf8 = λ t. ok t;
  parse_json = λ t. err (bytes "not read");
  value_to_json = λ v. ok (bytes "{}");
  activity_to_json = λ a. ok (bytes "{}");
  parse_profile = λ t. err (bytes "not read");
  now_rfc3339 = λ h. bytes "2026-01-01T00:00:00Z";
  generate_uuid = λ h. bytes "u";
  zero = 0;
}

abbrev unlisted_post : Post
unlisted_post = record {
  id = bytes "https://a.example/users/u/posts/1";
  actor_id = bytes "https://a.example/users/u";
  content = bytes "hello #world, @v@b.example! #world";
  content_html = none;
  object_type = bytes "Note";
  name = none;
  summary = some (bytes "s");
  start_time = none;
  end_time = none;
  location = none;
  poll_options = none;
  visibility = bytes "unlisted";
  published_at = bytes "2026-01-01T00:00:00Z";
  in_reply_to = none;
  media_attachments = none;
  atproto_uri = none;
  encrypted_message = none;
}

tag_count : List (Value ℕ) → ℕ
tag_count tags = length tags

-- A tag that is repeated is listed once.
run_tags : tag_count (activity_tags unlisted_post.content) ≡ 2
unfolding tag_count activity_tags dais.Activitypub.Outbox.Tags.tags_from
    dais.Activitypub.Outbox.Tags.hashtag_tag dais.Activitypub.Outbox.Tags.trim_token
    dais.Activitypub.Outbox.Tags.mention_tag dais.Base.split_whitespace dais.Base.split_words
    dais.Base.flush dais.Base.skip_white dais.Base.strip_prefix dais.Base.split dais.Base.cut
    dais.Base.push_front dais.Base.trim dais.Base.trim_end dais.Base.trim_start dais.Base.is_blank
    dais.Base.is_nil dais.Base.skip_whites dais.Base.text_eq bytes
run_tags = refl

infer_note_visibility-build_note_object_example :
    infer_note_visibility (build_note_object sample services unlisted_post none)
    ≡ told (bytes "unlisted")
infer_note_visibility-build_note_object_example =
    infer_note_visibility-build_note_object sample services unlisted_post none

-- A database with one public post.
abbrev public_row : Members ℕ
public_row = Members.member (bytes "content") (Value.string (bytes "hello")) (
    Members.member (bytes "encrypted_message") Value.null (
      Members.member (bytes "id") (Value.string (bytes "https://a.example/users/u"))
        (Members.member (bytes "visibility") (Value.string (bytes "public")) Members.end)))

answer : Text → List (Members ℕ)
answer sql =
    if text_eq sql select_outbox_posts
    then public_row ∷ []
    else if text_eq sql (bytes "SELECT id FROM actors WHERE username = ?1")
    then public_row ∷ []
    else []

abbrev one_post : Database ℕ
one_post = record { execute = λ query params. ok (answer query) }

rows_injective :
    (a b : List (Members ℕ)) → ◌≡◌ {A = Result Text (List (Members ℕ))} (ok a) (ok b) → a ≡ b
rows_injective a b h = cc

public_row-Meets : All (Meets public_row) three_conditions
unfolding bytes get_member column_name contains starts_with text_eq
public_row-Meets = (refl, (refl, ((bytes "hello", refl, refl), tt)))

outbox_statement_eq : select_outbox_posts ≡ outbox_statement three_conditions
unfolding outbox_statement sql_of column_name join texts_of bytes
outbox_statement_eq = refl

answer-Meets :
    (conditions : List Condition)
    → All IsPlain conditions
    → All (λ row. All (Meets row) conditions) (answer (outbox_statement conditions))
unfolding answer
answer-Meets conditions plain =
    elim (Bool-cases (text_eq (outbox_statement conditions) select_outbox_posts)) [
      | inl e ↦
          let same = (text_eq_iff (outbox_statement conditions) select_outbox_posts).0 e in
          let own = outbox_statement-injective conditions plain (same ∙ outbox_statement_eq) in
          rw e (subst (λ cs. All (Meets public_row) cs) (sym own) public_row-Meets, tt)
      | inr e ↦
          elim (Bool-cases (
            text_eq (outbox_statement conditions)
              (bytes "SELECT id FROM actors WHERE username = ?1"))) [
                | inl e' ↦ absurd (outbox_statement-ne conditions ((text_eq_iff _ _).0 e'))
                | inr e' ↦ rw (e, e') tt
              ]
    ]

one_post-Filters : Filters one_post
one_post-Filters conditions params rows plain h =
    subst (All (λ row. All (Meets row) conditions)) (rows_injective _ rows h)
      (answer-Meets conditions plain)

run_outbox : get_outbox_posts sample one_post (bytes "u") ≡ ok (post_of public_row ∷ [])
unfolding get_outbox_posts run_query actor_id_of column_str posts_of bytes get_member as_str text_eq
    answer
run_outbox = refl

get_outbox_posts-IsAnonymous_example : All (IsAnonymous sample services) (post_of public_row ∷ [])
get_outbox_posts-IsAnonymous_example =
    get_outbox_posts-IsAnonymous sample services one_post one_post-Filters (bytes "u")
      (post_of public_row ∷ []) run_outbox
