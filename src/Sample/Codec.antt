-- ===== src/Sample/Codec.antt =====
-- A prefix code for values over CIDs that are byte strings and floats that are numbers.
use dais.Base.{
  ℕ, zero, suc, ◌+◌, ◌≤◌, Bytes, [], ◌∷◌, ◌++◌, Option, none, some, true, false, ◌≡◌, refl, arith,
  length, take, drop, take-append_self, drop-append_self, length-append, max,
}
use dais.Ipld.{Ipld, Items, Fields, pos, negsuc}

abbrev pub V : Type 0
V = Ipld Bytes ℕ

-- A length, then that many bytes.
abbrev block : Bytes → Bytes → Bytes
block b rest = length b ∷ (b ++ rest)

unfoldable mutual
  pub encode : Ipld Bytes ℕ → Bytes → Bytes
  encode Ipld.null rest = 0 ∷ rest
  encode (Ipld.bool true) rest = 1 ∷ rest
  encode (Ipld.bool false) rest = 2 ∷ rest
  encode (Ipld.integer (pos n)) rest = 3 ∷ n ∷ rest
  encode (Ipld.integer (negsuc n)) rest = 4 ∷ n ∷ rest
  encode (Ipld.float f) rest = 5 ∷ f ∷ rest
  encode (Ipld.string s) rest = 6 ∷ block s rest
  encode (Ipld.raw b) rest = 7 ∷ block b rest
  encode (Ipld.link c) rest = 8 ∷ block c rest
  encode (Ipld.list l) rest = 9 ∷ encode_items l rest
  encode (Ipld.dict m) rest = 10 ∷ encode_fields m rest

  pub encode_items : Items Bytes ℕ → Bytes → Bytes
  encode_items Items.nil rest = 0 ∷ rest
  encode_items (Items.cons v l) rest = 1 ∷ encode v (encode_items l rest)

  pub encode_fields : Fields Bytes ℕ → Bytes → Bytes
  encode_fields Fields.end rest = 0 ∷ rest
  encode_fields (Fields.field k v m) rest = 1 ∷ block k (encode v (encode_fields m rest))

-- Nesting, which bounds the fuel.
unfoldable mutual
  pub nesting : Ipld Bytes ℕ → ℕ
  nesting (Ipld.list l) = suc (nesting_items l)
  nesting (Ipld.dict m) = suc (nesting_fields m)
  nesting v = 1

  pub nesting_items : Items Bytes ℕ → ℕ
  nesting_items Items.nil = 1
  nesting_items (Items.cons v l) = suc (max (nesting v) (nesting_items l))

  pub nesting_fields : Fields Bytes ℕ → ℕ
  nesting_fields Fields.end = 1
  nesting_fields (Fields.field k v m) = suc (max (nesting v) (nesting_fields m))

abbrev after :
    {A B : Type 0} → Option (A × Bytes) → (A → Bytes → Option (B × Bytes)) → Option (B × Bytes)
after none f = none
after (some (a, rest)) f = f a rest

take_block : {A : Type 0} → (Bytes → A) → Bytes → Option (A × Bytes)
take_block f [] = none
take_block f (n ∷ rest) = some (f (take n rest), drop n rest)

take_number : {A : Type 0} → (ℕ → A) → Bytes → Option (A × Bytes)
take_number f [] = none
take_number f (n ∷ rest) = some (f n, rest)

unfoldable mutual
  unfolding take_block take_number

  pub decode : ℕ → Bytes → Option (Ipld Bytes ℕ × Bytes)
  decode zero input = none
  decode (suc k) [] = none
  decode (suc k) (zero ∷ rest) = some (Ipld.null, rest)
  decode (suc k) (suc zero ∷ rest) = some (Ipld.bool true, rest)
  decode (suc k) (suc (suc zero) ∷ rest) = some (Ipld.bool false, rest)
  decode (suc k) (suc (suc (suc zero)) ∷ rest) = take_number (λ n. Ipld.integer (pos n)) rest
  decode (suc k) (suc (suc (suc (suc zero))) ∷ rest) =
      take_number (λ n. Ipld.integer (negsuc n)) rest
  decode (suc k) (suc (suc (suc (suc (suc zero)))) ∷ rest) = take_number Ipld.float rest
  decode (suc k) (suc (suc (suc (suc (suc (suc zero))))) ∷ rest) = take_block Ipld.string rest
  decode (suc k) (suc (suc (suc (suc (suc (suc (suc zero)))))) ∷ rest) = take_block Ipld.raw rest
  decode (suc k) (suc (suc (suc (suc (suc (suc (suc (suc zero))))))) ∷ rest) =
      take_block Ipld.link rest
  decode (suc k) (suc (suc (suc (suc (suc (suc (suc (suc (suc zero)))))))) ∷ rest) =
      after (decode_items k rest) (λ l r. some (Ipld.list l, r))
  decode (suc k) (suc (suc (suc (suc (suc (suc (suc (suc (suc (suc n))))))))) ∷ rest) =
      after (decode_fields k rest) (λ m r. some (Ipld.dict m, r))

  pub decode_items : ℕ → Bytes → Option (Items Bytes ℕ × Bytes)
  decode_items zero input = none
  decode_items (suc k) [] = none
  decode_items (suc k) (zero ∷ rest) = some (Items.nil, rest)
  decode_items (suc k) (suc t ∷ rest) =
      after (decode k rest) (λ v r. after (decode_items k r) (λ l r'. some (Items.cons v l, r')))

  pub decode_fields : ℕ → Bytes → Option (Fields Bytes ℕ × Bytes)
  decode_fields zero input = none
  decode_fields (suc k) [] = none
  decode_fields (suc k) (zero ∷ rest) = some (Fields.end, rest)
  decode_fields (suc k) (suc t ∷ rest) = after (take_block (λ b. b) rest) (λ key r.
      after (decode k r)
        (λ v r'. after (decode_fields k r') (λ m r''. some (Fields.field key v m, r''))))

nesting_pos : (v : Ipld Bytes ℕ) → 1 ≤ nesting v
unfolding nesting
nesting_pos (Ipld.list l) = omega arith
nesting_pos (Ipld.dict m) = omega arith
nesting_pos _ = omega arith

mutual
  unfolding encode decode nesting

  decode-encode_at :
      (v : Ipld Bytes ℕ) (k : ℕ) (rest : Bytes)
      → nesting v ≤ k
      → decode k (encode v rest) ≡ some (v, rest)
  decode-encode_at v zero rest h = absurd (omega (arith, nesting_pos v))
  decode-encode_at Ipld.null (suc k) rest h = refl
  decode-encode_at (Ipld.bool true) (suc k) rest h = refl
  decode-encode_at (Ipld.bool false) (suc k) rest h = refl
  decode-encode_at (Ipld.integer (pos n)) (suc k) rest h = refl
  decode-encode_at (Ipld.integer (negsuc n)) (suc k) rest h = refl
  decode-encode_at (Ipld.float f) (suc k) rest h = refl
  decode-encode_at (Ipld.string s) (suc k) rest h =
      rw (take-append_self s rest, drop-append_self s rest)
  decode-encode_at (Ipld.raw s) (suc k) rest h =
      rw (take-append_self s rest, drop-append_self s rest)
  decode-encode_at (Ipld.link s) (suc k) rest h =
      rw (take-append_self s rest, drop-append_self s rest)
  decode-encode_at (Ipld.list l) (suc k) rest h = rw (decode_items-encode_at l k rest (omega arith))
  decode-encode_at (Ipld.dict m) (suc k) rest h =
      rw (decode_fields-encode_at m k rest (omega arith))

  decode_items-encode_at :
      (l : Items Bytes ℕ) (k : ℕ) (rest : Bytes)
      → nesting_items l ≤ k
      → decode_items k (encode_items l rest) ≡ some (l, rest)
  decode_items-encode_at Items.nil zero rest h = absurd (omega arith)
  decode_items-encode_at Items.nil (suc k) rest h = refl
  decode_items-encode_at (Items.cons v l) zero rest h = absurd (omega arith)
  decode_items-encode_at (Items.cons v l) (suc k) rest h = rw (
    decode-encode_at v k (encode_items l rest) (omega arith),
    decode_items-encode_at l k rest (omega arith),
  )

  decode_fields-encode_at :
      (m : Fields Bytes ℕ) (k : ℕ) (rest : Bytes)
      → nesting_fields m ≤ k
      → decode_fields k (encode_fields m rest) ≡ some (m, rest)
  decode_fields-encode_at Fields.end zero rest h = absurd (omega arith)
  decode_fields-encode_at Fields.end (suc k) rest h = refl
  decode_fields-encode_at (Fields.field key v m) zero rest h = absurd (omega arith)
  decode_fields-encode_at (Fields.field key v m) (suc k) rest h = rw (
    take-append_self key (encode v (encode_fields m rest)),
    drop-append_self key (encode v (encode_fields m rest)),
    decode-encode_at v k (encode_fields m rest) (omega arith),
    decode_fields-encode_at m k rest (omega arith),
  )

mutual
  unfolding encode nesting

  fits : (v : Ipld Bytes ℕ) (rest : Bytes) → nesting v + length rest ≤ length (encode v rest)
  fits Ipld.null rest = omega arith
  fits (Ipld.bool true) rest = omega arith
  fits (Ipld.bool false) rest = omega arith
  fits (Ipld.integer (pos n)) rest = omega arith
  fits (Ipld.integer (negsuc n)) rest = omega arith
  fits (Ipld.float f) rest = omega arith
  fits (Ipld.string s) rest = omega (arith, length-append s rest)
  fits (Ipld.raw s) rest = omega (arith, length-append s rest)
  fits (Ipld.link s) rest = omega (arith, length-append s rest)
  fits (Ipld.list l) rest = omega (arith, fits_items l rest)
  fits (Ipld.dict m) rest = omega (arith, fits_fields m rest)

  fits_items :
      (l : Items Bytes ℕ) (rest : Bytes)
      → nesting_items l + length rest ≤ length (encode_items l rest)
  fits_items Items.nil rest = omega arith
  fits_items (Items.cons v l) rest = omega (arith, fits v (encode_items l rest), fits_items l rest)

  fits_fields :
      (m : Fields Bytes ℕ) (rest : Bytes)
      → nesting_fields m + length rest ≤ length (encode_fields m rest)
  fits_fields Fields.end rest = omega arith
  fits_fields (Fields.field key v m) rest = omega (
    arith,
    length-append key (encode v (encode_fields m rest)),
    fits v (encode_fields m rest),
    fits_fields m rest,
  )

-- What was encoded is decoded, with as much fuel as bytes.
pub decode-encode : (v : Ipld Bytes ℕ) → decode (length (encode v [])) (encode v []) ≡ some (v, [])
decode-encode v = decode-encode_at v (length (encode v [])) [] (omega (arith, fits v []))
