-- ===== src/Webfinger/Tests.antt =====
-- A handle on which the answer is run.
use dais.Base.{Lacks, ℕ, Text, bytes, [], ◌∷◌, ◌++◌, ok, ◌≡◌, ◌⊎◌, refl, ◌==◌, false, All}
use dais.Json.{Members}
use dais.Sample.{sample}
use dais.Activitypub.Federation.{Database}
use dais.Webfinger.{handle_webfinger, find_user, response_for}
use dais.Webfinger.Handles.{handle_webfinger_sound, handle_webfinger_canonical}

-- A database with one row for every query.
abbrev full : Database ℕ
full = record { execute = λ query params. ok (Members.end ∷ []) }

answered :
    handle_webfinger sample full (bytes "acct:a@s.b") (bytes "b") (bytes "s.b")
    ≡ ok (response_for (bytes "b") (bytes "s.b") (bytes "a"))
unfolding handle_webfinger dais.Webfinger.parse_account dais.Base.strip_prefix bytes dais.Base.split
    dais.Webfinger.answer dais.Base.text_eq find_user dais.Activitypub.Federation.run_query
answered = refl

handle_webfinger_sound_example :
    (username : Text) × (domain : Text) × (bytes "acct:a@s.b"
      ≡ bytes "acct:" ++ (username ++ 64 ∷ domain))
    × ((domain ≡ bytes "b") ⊎ (domain ≡ bytes "s.b"))
    × (find_user sample full username ≡ ok tt)
    × Lacks 64 username
    × (response_for (bytes "b") (bytes "s.b") (bytes "a")
        ≡ response_for (bytes "b") (bytes "s.b") username)
handle_webfinger_sound_example =
    handle_webfinger_sound sample full (bytes "b") (bytes "s.b") (bytes "acct:a@s.b")
      (response_for (bytes "b") (bytes "s.b") (bytes "a")) answered

handle_webfinger_canonical_example :
    handle_webfinger sample full
      (response_for (bytes "b") (bytes "s.b") (bytes "a")).subject
      (bytes "b")
      (bytes "s.b")
    ≡ ok (response_for (bytes "b") (bytes "s.b") (bytes "a"))
unfolding bytes
handle_webfinger_canonical_example =
    handle_webfinger_canonical sample full (bytes "b") (bytes "s.b") (bytes "acct:a@s.b")
      (response_for (bytes "b") (bytes "s.b") (bytes "a")) (refl, tt) answered
