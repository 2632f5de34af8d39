-- ===== src/Activitypub/Signatures/Words.antt =====
-- The list of a header's names is read back from its text (core/src/activitypub/signatures.rs).
use dais.Base.{
  ℕ, zero, suc, ◌+◌, Text, bytes, List, [], ◌∷◌, ◌++◌, false, ◌≡◌, ◌≢◌, refl, sym, ◌∙◌, ap, arith,
  length, length-append, append_assoc, append-nil, All, Lacks, ◌==◌, flush, split_words,
  split_whitespace, join, split, cut, push_front,
}
use dais.Activitypub.Signatures.Quotes.{InField, skip_white-visible, skip_white-space}

-- A character of a name.
abbrev pub InWord : ℕ → Type 0
InWord c = InField c × (c ≢ 32)

-- A name of a header: not empty, and visible.
abbrev pub IsName : Text → Type 0
IsName w = (w ≢ []) × All InWord w

split_words-word :
    (fuel n : ℕ) (word w rest : Text)
    → fuel ≡ length w + n
    → All InWord w
    → split_words fuel word (w ++ rest) ≡ split_words n (word ++ w) rest
unfolding split_words
split_words-word fuel n word [] rest e h =
    let same : fuel ≡ n = omega arith in
    rw (append-nil word) (ap (λ k. split_words k word rest) same)
split_words-word zero n word (c ∷ w) rest e h = absurd (omega arith)
split_words-word (suc fuel) n word (c ∷ w) rest e ((f, ne), hs) =
    let visible : (c == 32) ≡ false = ground arith in
    rw (skip_white-visible c (w ++ rest) (f.0, f.1) visible, split_words)
      (split_words-word fuel n (word ++ c ∷ []) w rest (omega arith) hs
        ∙ ap (λ u. split_words n u rest) (append_assoc word (c ∷ []) w))

-- The end of a word that is not empty.
flushed : (w : Text) (words : List Text) → w ≢ [] → flush w words ≡ w ∷ words
unfolding flush
flushed [] words ne = absurd (ne refl)
flushed (c ∷ w) words ne = refl

split_words-end : (n : ℕ) (w : Text) → w ≢ [] → split_words n w [] ≡ w ∷ []
unfolding split_words
split_words-end zero w ne = flushed w [] ne
split_words-end (suc n) w ne = flushed w [] ne

split_words-space :
    (n : ℕ) (w rest : Text) → w ≢ [] → split_words (suc n) w (32 ∷ rest) ≡ w ∷ split_words n [] rest
unfolding split_words
split_words-space n w rest ne =
    rw (skip_white-space 32 rest (omega arith) refl, split_words) (flushed w _ ne)

nothing : (fuel : ℕ) → split_words fuel [] [] ≡ []
unfolding split_words flush
nothing zero = refl
nothing (suc fuel) = refl

split_words-join :
    (fuel : ℕ) (hs : List Text)
    → fuel ≡ length (join (bytes " ") hs)
    → All IsName hs
    → split_words fuel [] (join (bytes " ") hs) ≡ hs
unfolding join bytes
split_words-join fuel [] e h = nothing fuel
split_words-join fuel (w ∷ []) e ((ne, h), hs) =
    ap (λ t. split_words fuel [] t) (sym (append-nil w))
    ∙ split_words-word fuel 0 [] w [] (omega arith) h
    ∙ split_words-end 0 w ne
split_words-join fuel (w ∷ v ∷ more) e ((ne, h), hs) =
    let rest : Text = join (bytes " ") (v ∷ more) in
    split_words-word fuel (suc (length rest)) [] w (32 ∷ rest)
      (omega (arith, length-append w (32 ∷ rest))) h
    ∙ split_words-space (length rest) w rest ne
    ∙ ap (λ t. w ∷ t) (split_words-join (length rest) (v ∷ more) refl hs)

pub split_whitespace-join :
    (hs : List Text) → All IsName hs → split_whitespace (join (bytes " ") hs) ≡ hs
unfolding split_whitespace
split_whitespace-join hs h = split_words-join _ hs refl h

-- A text is split behind its first part.
pub split-first :
    (m : ℕ) (u t : Text) → Lacks m u → split m (u ++ m ∷ t) ≡ (u, (split m t).0 ∷ (split m t).1)
unfolding split cut push_front
split-first m [] t h = ground arith
split-first m (c ∷ u) t (h, hs) = rw (h, split-first m u t hs) refl

pub split-last : (m : ℕ) (u : Text) → Lacks m u → split m u ≡ (u, [])
unfolding split push_front
split-last m [] h = refl
split-last m (c ∷ u) (h, hs) = rw (h, split-last m u hs) refl
