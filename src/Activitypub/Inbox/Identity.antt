-- ===== src/Activitypub/Inbox/Identity.antt =====
-- The identifiers of conversations, of core/src/activitypub/inbox.rs.
use dais.Base.{
  Text, List, [], ◌∷◌, ◌++◌, ◌≡◌, refl, ap, arith, Lacks, All, ◌↔◌, ◌⊎◌, inl, inr, text_cmp,
  text_cmp-eq, text_cmp-flip, Ordering-cases,
}
use dais.Activitypub.Inbox.Conversations.{sorted_participants, hash_input}

sorted_participants_comm : (a b : Text) → sorted_participants a b ≡ sorted_participants b a
unfolding sorted_participants
sorted_participants_comm a b =
    ground (arith, text_cmp-flip a b, text_cmp-eq a b, Ordering-cases (text_cmp a b))

-- A participant ends at the first zero.
participant_end :
    (p q r t : Text) → Lacks 0 p → Lacks 0 q → p ++ 0 ∷ r ≡ q ++ 0 ∷ t → (p ≡ q) × (r ≡ t)
participant_end [] [] r t lp lq h = (refl, cc)
participant_end [] (b ∷ q) r t lp (nb, lq) h = ground arith
participant_end (a ∷ p) [] r t (na, lp) lq h = ground arith
participant_end (a ∷ p) (b ∷ q) r t (na, lp) (nb, lq) h =
    let rest : p ++ 0 ∷ r ≡ q ++ 0 ∷ t = cc in
    let both = participant_end p q r t lp lq rest in ground arith

hash_input-injective :
    (ps qs : List Text)
    → All (Lacks 0) ps
    → All (Lacks 0) qs
    → hash_input ps ≡ hash_input qs
    → ps ≡ qs
unfolding hash_input
hash_input-injective [] [] lp lq h = refl
hash_input-injective [] ([] ∷ qs) lp lq h = cc
hash_input-injective [] ((b ∷ q) ∷ qs) lp lq h = cc
hash_input-injective ([] ∷ ps) [] lp lq h = cc
hash_input-injective ((a ∷ p) ∷ ps) [] lp lq h = cc
hash_input-injective (p ∷ ps) (q ∷ qs) (lp, lps) (lq, lqs) h =
    let (same, others) = participant_end p q (hash_input ps) (hash_input qs) lp lq h in
    let more = hash_input-injective ps qs lps lqs others in cc

sorted_participants-Lacks :
    (a b : Text) → Lacks 0 a → Lacks 0 b → All (Lacks 0) (sorted_participants a b)
unfolding sorted_participants
sorted_participants-Lacks a b la lb = elim (Ordering-cases (text_cmp a b)) [
  | inl e ↦ rw (e, All, sorted_participants) (la, (lb, tt))
  | inr (inl e) ↦ rw (e, All, sorted_participants) (la, tt)
  | inr (inr e) ↦ rw (e, All, sorted_participants) (lb, (la, tt))
]

sorted_participants-injective :
    (a b c d : Text)
    → sorted_participants a b ≡ sorted_participants c d
    → ((a ≡ c) × (b ≡ d)) ⊎ ((a ≡ d) × (b ≡ c))
unfolding sorted_participants
sorted_participants-injective a b c d h = ground (
  arith,
  text_cmp-eq a b,
  text_cmp-eq c d,
  Ordering-cases (text_cmp a b),
  Ordering-cases (text_cmp c d),
)

-- What the identifier of a conversation is hashed of is the same whichever of the two participants is
-- the sender, and, for participants without a zero byte, no other two participants have it.
pub hash_input_exact :
    (a b c d : Text)
    → Lacks 0 a
    → Lacks 0 b
    → Lacks 0 c
    → Lacks 0 d
    → (hash_input (sorted_participants a b) ≡ hash_input (sorted_participants c d))
      ↔ (((a ≡ c) × (b ≡ d)) ⊎ ((a ≡ d) × (b ≡ c)))
hash_input_exact a b c d la lb lc ld = (forth, back)
  where
    forth :
        hash_input (sorted_participants a b) ≡ hash_input (sorted_participants c d)
        → ((a ≡ c) × (b ≡ d)) ⊎ ((a ≡ d) × (b ≡ c))
    forth h = sorted_participants-injective a b c d (
        hash_input-injective _ _ (sorted_participants-Lacks a b la lb)
          (sorted_participants-Lacks c d lc ld) h)

    back :
        ((a ≡ c) × (b ≡ d)) ⊎ ((a ≡ d) × (b ≡ c))
        → hash_input (sorted_participants a b) ≡ hash_input (sorted_participants c d)
    back (inl (e, f)) = rw (e, f) refl
    back (inr (e, f)) = rw (e, f) (ap hash_input (sorted_participants_comm d c))
