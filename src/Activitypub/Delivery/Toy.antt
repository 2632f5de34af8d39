-- ===== src/Activitypub/Delivery/Toy.antt =====
-- A text form of bytes that stands for `base64` in the tests: a number is so many letters `a`, and a `b`.
use dais.Base.{
  ℕ, zero, suc, ◌+◌, Text, Bytes, bytes, [], ◌∷◌, ok, ◌≡◌, refl, ap, ◌∙◌, arith, ◌==◌,
  if◌then◌else◌, text_eq, All, to_ascii_lowercase,
}
use dais.Formats.{Formats}
use dais.Sample.{sample}
use dais.Activitypub.Signatures.Attempt.{Rsa}
use dais.Activitypub.Signatures.Quotes.{InField}
use dais.Activitypub.Signatures.Laws.{IsKeyPair}

ones : ℕ → Text → Text
ones zero t = 98 ∷ t
ones (suc n) t = 97 ∷ ones n t

unfoldable pub letters : Bytes → Text
unfolding ones
letters [] = []
letters (n ∷ b) = ones n (letters b)

unfoldable pub read_letters : ℕ → Text → Bytes
read_letters n [] = []
read_letters n (c ∷ t) =
    let rest = read_letters (if c == 98 then 0 else suc n) t in if c == 98 then n ∷ rest else rest

read-ones : (k n : ℕ) (t : Text) → read_letters k (ones n t) ≡ (k + n) ∷ read_letters 0 t
unfolding read_letters ones
read-ones k zero t = ap (λ m. m ∷ read_letters 0 t) (omega arith)
read-ones k (suc n) t = read-ones (suc k) n t ∙ ap (λ m. m ∷ read_letters 0 t) (omega arith)

read-letters : (b : Bytes) → read_letters 0 (letters b) ≡ b
unfolding letters read_letters
read-letters [] = refl
read-letters (n ∷ b) =
    read-ones 0 n (letters b) ∙ (λ i. (0 + n) ∷ read-letters b i) ∙ ap (λ m. m ∷ b) (omega arith)

ones-InField : (n : ℕ) (t : Text) → All InField t → All InField (ones n t)
unfolding ones
ones-InField zero t h = (omega arith, h)
ones-InField (suc n) t h = (omega arith, ones-InField n t h)

pub letters-InField : (b : Bytes) → All InField (letters b)
unfolding letters
letters-InField [] = tt
letters-InField (n ∷ b) = ones-InField n (letters b) (letters-InField b)

unfoldable pub lettered : Formats Bytes ℕ ℕ
lettered = record sample { base64 = letters }

abbrev pub toy : Rsa Text Text Bytes
toy = record {
  private_key = λ pem. ok pem;
  public_key = λ pem. ok pem;
  sign = λ key message. bytes "s";
  verify = λ key message g. text_eq g (bytes "s");
  signature_bytes = λ g. g;
  signature_of = λ b. ok b;
  decode64 = λ t. ok (read_letters 0 t);
  to_lowercase = to_ascii_lowercase;
}

pub toy-IsKeyPair : IsKeyPair lettered toy (bytes "k") (bytes "k")
unfolding lettered text_eq bytes
toy-IsKeyPair = record {
  secret = bytes "k";
  public = bytes "k";
  private_key_eq = refl;
  public_key_eq = refl;
  verify-sign = λ message. refl;
  signature_of-signature_bytes = λ g. refl;
  decode64-base64 = λ b. ap ok (read-letters b);
}

pub lettered-InField : (b : Bytes) → All InField (lettered.base64 b)
unfolding lettered
lettered-InField = letters-InField
