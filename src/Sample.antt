-- ===== src/Sample.antt =====
-- Concrete formats that meet the assumptions of `Formats`, for the tests: a prefix code for
-- values, and CIDs that carry what they would hash.
mod Codec
use dais.Base.{
  ℕ, zero, suc, ◌+◌, ◌^◌, ◌≤◌, Bytes, bytes, List, [], ◌∷◌, ◌++◌, Option, none, some, Bool, true,
  false, ◌≡◌, refl, arith, Result, ok, err, text_eq, text_eq_iff, length, take, drop,
  take-append_self, drop-append_self, if◌then◌else◌, ltb, Text, ok-injective,
}
use mathlib.Core.Path.{subst}
use dais.Ipld.{Ipld, ℤ, pos, negsuc}
use dais.Formats.{Formats, InI64, IsLawful}
use Codec.{encode, decode, decode-encode}

-- A CID is its code and its hash; the hash of a text is the text.
code_of : Bytes → ℕ
code_of [] = 0
code_of (code ∷ hash) = code

read_block : Bytes → Result Text (Bytes × Bytes)
read_block [] = err []
read_block (n ∷ rest) = ok (take n rest, drop n rest)

decoded : Option (Ipld Bytes ℕ × Bytes) → Result Text (Ipld Bytes ℕ)
decoded none = err []
decoded (some (v, [])) = ok v
decoded (some (v, b ∷ rest)) = err []

partial : Option (Ipld Bytes ℕ × Bytes) → Result Text (Ipld Bytes ℕ × Bytes)
partial none = err []
partial (some r) = ok r

read_natural : ℤ → ℕ
read_natural (pos n) = n
read_natural (negsuc n) = 0

unfoldable pub sample : Formats Bytes ℕ ℕ
unfolding code_of read_block decoded partial read_natural encode decode text_eq
sample = record {
  usize_range = 2 ^ 32;
  cid_eq = text_eq;
  cid_bytes = λ c. length c ∷ c;
  read_cid = read_block;
  cid_text = λ c. c;
  parse_cid = λ t. ok t;
  codec = code_of;
  new_v1 = λ code hash. code ∷ hash;
  multihash = λ b. b;
  sha256 = λ b. b;
  to_vec = λ v. ok (encode v []);
  from_slice = λ b. decoded (decode (length b) b);
  read_value = λ b. partial (decode (length b) b);
  debug = λ v. [];
  as_i64 = λ n. if ltb n (2 ^ 63) then some (pos n) else none;
  as_u64 = λ n. some n;
  from_i64 = read_natural;
  from_f64 = λ f. some f;
  base64 = λ b. b;
}

read_block-append : (c rest : Bytes) → read_block (length c ∷ (c ++ rest)) ≡ ok (c, rest)
unfolding read_block
read_block-append c rest = rw (take-append_self c rest, drop-append_self c rest)

decoded-encode :
    (v : Ipld Bytes ℕ) (b : Bytes)
    → ◌≡◌ {A = Result Text Bytes} (ok (encode v [])) (ok b)
    → decoded (decode (length b) b) ≡ ok v
unfolding decoded
decoded-encode v b h =
    let e : encode v [] ≡ b = cc (h) in
    subst (λ t. decoded (decode (length t) t) ≡ ok v) e (rw (decode-encode v))

abbrev small : ℕ → Option ℤ
small n = if ltb n (2 ^ 63) then some (pos n) else none

as_i64_inv : (n : ℕ) (i : ℤ) → small n ≡ some i → read_natural i ≡ n
unfolding read_natural
as_i64_inv n (pos m) h = ground arith
as_i64_inv n (negsuc m) h = ground arith

as_i64_range : (n : ℕ) (i : ℤ) → small n ≡ some i → InI64 i
as_i64_range n (pos m) h = ground arith
as_i64_range n (negsuc m) h = ground arith

as_u64_inv : (n k : ℕ) → small n ≡ none → some n ≡ some k → 2 ^ 63 ≤ k
as_u64_inv n k h e = ground arith

pub sample-IsLawful : IsLawful sample
unfolding sample
sample-IsLawful = record {
  cid_eq_iff = text_eq_iff;
  read_cid-cid_bytes = read_block-append;
  from_slice-to_vec = decoded-encode;
  parse_cid-cid_text = λ c. refl;
  codec-new_v1 = λ code hash. refl;
  from_i64-as_i64 = λ n i h. as_i64_inv n i h;
  as_i64-InI64 = λ n i h. as_i64_range n i h;
  as_u64_large = λ n k h e. as_u64_inv n k h e;
}
