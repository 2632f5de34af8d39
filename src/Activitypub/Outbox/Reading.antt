-- ===== src/Activitypub/Outbox/Reading.antt =====
-- The statement of the outbox can be read in one way only: a database that knows nothing but that
-- statement filters by its conditions.
use dais.Base.{
  ℕ, zero, suc, append_assoc, append-nil, All-imp, Text, bytes, List, [], ◌∷◌, ◌++◌, ◌≡◌, ◌≢◌, refl,
  sym, ap, ◌∙◌, arith, length, length-append, join, All,
}
use dais.Activitypub.Outbox.Conditions.{
  Column, Condition, column_name, sql_of, texts_of, outbox_statement, IsPlain,
}

cancel_left : (a b c : Text) → a ++ b ≡ a ++ c → b ≡ c
cancel_left [] b c e = e
cancel_left (x ∷ a) b c e = cancel_left a b c (cc (e))

cancel_right : (a b c : Text) → a ++ c ≡ b ++ c → a ≡ b
cancel_right [] [] c e = refl
cancel_right [] (y ∷ b) c e =
    let same = ap length e in let long = length-append b c in absurd (omega (arith, same, long))
cancel_right (x ∷ a) [] c e =
    let same = ap length e in let long = length-append a c in absurd (omega (arith, same, long))
cancel_right (x ∷ a) (y ∷ b) c e =
    let head : x ≡ y = cc (e) in
    let tail : a ++ c ≡ b ++ c = cc (e) in cc (head, cancel_right a b c tail)

-- Two texts without a mark are the same where the mark ends them both.
cut_same :
    (mark : ℕ) (a b r s : Text)
    → All (λ c. c ≢ mark) a
    → All (λ c. c ≢ mark) b
    → a ++ mark ∷ r ≡ b ++ mark ∷ s
    → (a ≡ b) × (r ≡ s)
cut_same mark [] [] r s p q e = (refl, cc (e))
cut_same mark [] (y ∷ b) r s p q e = absurd (q.0 (cc (e)))
cut_same mark (x ∷ a) [] r s p q e = absurd (p.0 (cc (e)))
cut_same mark (x ∷ a) (y ∷ b) r s p q e =
    let (same, rest) = cut_same mark a b r s p.1 q.1 (cc (e)) in
    let head : x ≡ y = cc (e) in (cc (head, same), rest)

at : ℕ → Text → ℕ
at n [] = 0
at zero (c ∷ t) = c
at (suc n) (c ∷ t) = at n t

-- The three conditions, each where it begins a text.
first_equals :
    (c : Condition) (more m : Text)
    → IsPlain c
    → sql_of c ++ more ≡ bytes "visibility = 'public'" ++ m
    → (c ≡ Condition.equals Column.visibility (bytes "public")) × (more ≡ m)
unfolding sql_of column_name at bytes
first_equals (Condition.equals Column.visibility t) more m p e =
    let cut =
      cut_same 39 t (bytes "public") more m (All-imp (λ c h. h.0) t p) (omega arith)
        (sym (append_assoc t (39 ∷ []) more) ∙ cancel_left (bytes "visibility = '") _ _ e) in
    (ap (Condition.equals Column.visibility) cut.0, cut.1)
first_equals (Condition.equals Column.encrypted_message t) more m p e =
    let same = ap (at 0) e in absurd (omega (arith, same))
first_equals (Condition.equals Column.content t) more m p e =
    let same = ap (at 0) e in absurd (omega (arith, same))
first_equals (Condition.is_null Column.visibility) more m p e =
    let same = ap (at 11) e in absurd (omega (arith, same))
first_equals (Condition.is_null Column.encrypted_message) more m p e =
    let same = ap (at 0) e in absurd (omega (arith, same))
first_equals (Condition.is_null Column.content) more m p e =
    let same = ap (at 0) e in absurd (omega (arith, same))
first_equals (Condition.not_like Column.visibility t) more m p e =
    let same = ap (at 11) e in absurd (omega (arith, same))
first_equals (Condition.not_like Column.encrypted_message t) more m p e =
    let same = ap (at 0) e in absurd (omega (arith, same))
first_equals (Condition.not_like Column.content t) more m p e =
    let same = ap (at 0) e in absurd (omega (arith, same))

first_is_null :
    (c : Condition) (more m : Text)
    → IsPlain c
    → sql_of c ++ more ≡ bytes "encrypted_message IS NULL" ++ m
    → (c ≡ Condition.is_null Column.encrypted_message) × (more ≡ m)
unfolding sql_of column_name at bytes
first_is_null (Condition.equals Column.visibility t) more m p e =
    let same = ap (at 0) e in absurd (omega (arith, same))
first_is_null (Condition.equals Column.encrypted_message t) more m p e =
    let same = ap (at 18) e in absurd (omega (arith, same))
first_is_null (Condition.equals Column.content t) more m p e =
    let same = ap (at 0) e in absurd (omega (arith, same))
first_is_null (Condition.is_null Column.visibility) more m p e =
    let same = ap (at 0) e in absurd (omega (arith, same))
first_is_null (Condition.is_null Column.encrypted_message) more m p e =
    (refl, cancel_left (bytes "encrypted_message IS NULL") more m e)
first_is_null (Condition.is_null Column.content) more m p e =
    let same = ap (at 0) e in absurd (omega (arith, same))
first_is_null (Condition.not_like Column.visibility t) more m p e =
    let same = ap (at 0) e in absurd (omega (arith, same))
first_is_null (Condition.not_like Column.encrypted_message t) more m p e =
    let same = ap (at 18) e in absurd (omega (arith, same))
first_is_null (Condition.not_like Column.content t) more m p e =
    let same = ap (at 0) e in absurd (omega (arith, same))

first_not_like :
    (c : Condition) (more m : Text)
    → IsPlain c
    → sql_of c ++ more ≡ bytes "content NOT LIKE '%End-to-end encrypted message%'" ++ m
    → (c ≡ Condition.not_like Column.content (bytes "End-to-end encrypted message")) × (more ≡ m)
unfolding sql_of column_name at bytes
first_not_like (Condition.equals Column.visibility t) more m p e =
    let same = ap (at 0) e in absurd (omega (arith, same))
first_not_like (Condition.equals Column.encrypted_message t) more m p e =
    let same = ap (at 0) e in absurd (omega (arith, same))
first_not_like (Condition.equals Column.content t) more m p e =
    let same = ap (at 8) e in absurd (omega (arith, same))
first_not_like (Condition.is_null Column.visibility) more m p e =
    let same = ap (at 0) e in absurd (omega (arith, same))
first_not_like (Condition.is_null Column.encrypted_message) more m p e =
    let same = ap (at 0) e in absurd (omega (arith, same))
first_not_like (Condition.is_null Column.content) more m p e =
    let same = ap (at 8) e in absurd (omega (arith, same))
first_not_like (Condition.not_like Column.visibility t) more m p e =
    let same = ap (at 0) e in absurd (omega (arith, same))
first_not_like (Condition.not_like Column.encrypted_message t) more m p e =
    let same = ap (at 0) e in absurd (omega (arith, same))
first_not_like (Condition.not_like Column.content t) more m p e =
    let cut =
      cut_same 37 t (bytes "End-to-end encrypted message") (39 ∷ more) (39 ∷ m)
        (All-imp (λ c h. h.1) t p) (omega arith)
        (sym (append_assoc t (37 ∷ 39 ∷ []) more)
          ∙ cancel_left (bytes "content NOT LIKE '%") _ _ e) in
    (ap (Condition.not_like Column.content) cut.0, cancel_left (39 ∷ []) more m cut.1)

abbrev pub three_conditions : List Condition
three_conditions =
    Condition.equals Column.visibility (bytes "public")
    ∷ Condition.is_null Column.encrypted_message
    ∷ Condition.not_like Column.content (bytes "End-to-end encrypted message")
    ∷ []

abbrev sep : Text
sep = bytes " AND "

abbrev third : Text
third = bytes "content NOT LIKE '%End-to-end encrypted message%'"

abbrev second : Text
second = bytes "encrypted_message IS NULL" ++ (sep ++ third)

reading :
    (cs : List Condition)
    → All IsPlain cs
    → join sep (texts_of cs) ≡ bytes "visibility = 'public'" ++ (sep ++ second)
    → cs ≡ three_conditions
unfolding join texts_of at bytes
reading [] p e = let same = ap (at 0) e in absurd (omega (arith, same))
reading (c ∷ []) p e =
    let (_, e1) = first_equals c [] (sep ++ second) p.0 (append-nil (sql_of c) ∙ e) in
    let same = ap (at 0) e1 in absurd (omega (arith, same))
reading (c ∷ d ∷ []) p e =
    let (_, e1) = first_equals c (sep ++ sql_of d) (sep ++ second) p.0 e in
    let e2 = cancel_left sep (sql_of d) second e1 in
    let (_, e3) = first_is_null d [] (sep ++ third) p.1.0 (append-nil (sql_of d) ∙ e2) in
    let same = ap (at 0) e3 in absurd (omega (arith, same))
reading (c ∷ d ∷ g ∷ []) p e =
    let (c', e1) = first_equals c (sep ++ (sql_of d ++ (sep ++ sql_of g))) (sep ++ second) p.0 e in
    let e2 = cancel_left sep (sql_of d ++ (sep ++ sql_of g)) second e1 in
    let (d', e3) = first_is_null d (sep ++ sql_of g) (sep ++ third) p.1.0 e2 in
    let e4 = cancel_left sep (sql_of g) third e3 in
    let (g', _) = first_not_like g [] [] p.1.1.0 (append-nil (sql_of g) ∙ e4) in
    rw (c', d', g') refl
reading (c ∷ d ∷ g ∷ h ∷ cs) p e =
    let rest : Text = sep ++ join sep (texts_of (h ∷ cs)) in
    let (c', e1) =
      first_equals c (sep ++ (sql_of d ++ (sep ++ (sql_of g ++ rest)))) (sep ++ second) p.0 e in
    let e2 = cancel_left sep (sql_of d ++ (sep ++ (sql_of g ++ rest))) second e1 in
    let (d', e3) = first_is_null d (sep ++ (sql_of g ++ rest)) (sep ++ third) p.1.0 e2 in
    let e4 = cancel_left sep (sql_of g ++ rest) third e3 in
    let (g', e5) = first_not_like g rest [] p.1.1.0 e4 in
    let same = ap (at 0) e5 in absurd (omega (arith, same))

-- Conditions that make the statement of the outbox are its own.
pub outbox_statement-injective :
    (cs : List Condition)
    → All IsPlain cs
    → outbox_statement cs ≡ outbox_statement three_conditions
    → cs ≡ three_conditions
unfolding outbox_statement texts_of join sql_of column_name
outbox_statement-injective cs p e =
    let own : join sep (texts_of three_conditions)
        ≡ bytes "visibility = 'public'" ++ (sep ++ second) =
      unfold bytes in refl in
    reading cs p (cancel_right _ _ _ (cancel_left _ _ _ e) ∙ own)

-- No other statement of the server begins with the line break of this one.
pub outbox_statement-ne :
    (cs : List Condition) → outbox_statement cs ≢ bytes "SELECT id FROM actors WHERE username = ?1"
unfolding outbox_statement at bytes
outbox_statement-ne cs e = let same = ap (at 0) e in omega (arith, same)
