-- ===== src/Formats.antt =====
-- What the AT Protocol code takes from other crates (`cid`, `multihash_codetable`, `sha2`,
-- `serde_ipld_dagcbor`, `serde_json::Number`, `base64`, `k256`), as parameters of the model, and
-- the documented behaviour that the theorems rely on. A platform's `usize` holds the numbers below
-- `usize_range` (2 ^ 32 on wasm32, 2 ^ 64 elsewhere).
use dais.Base.{
  ℕ, Text, Bytes, Bool, true, ◌≡◌, ◌↔◌, ◌++◌, ◌≤◌, ◌<◌, ◌^◌, Option, none, some, Result, ok,
}
use dais.Ipld.{Ipld, ℤ, pos, negsuc}

-- `C` is the type of CIDs, `F` of floats and `N` of JSON numbers.
pub record Formats (C F N : Type 0) : Type 0 where
  pub usize_range : ℕ
  -- `Cid`: `==`, `to_bytes`, `read_bytes` (with what is left of the input), `to_string`, `parse`,
  -- `codec`, `new_v1`
  pub cid_eq : C → C → Bool
  pub cid_bytes : C → Bytes
  pub read_cid : Bytes → Result Text (C × Bytes)
  pub cid_text : C → Text
  pub parse_cid : Text → Result Text C
  pub codec : C → ℕ
  pub new_v1 : ℕ → Bytes → C
  -- `Code::Sha2_256.digest` (a multihash), and `Sha256::digest` (32 bytes)
  pub multihash : Bytes → Bytes
  pub sha256 : Bytes → Bytes
  -- `serde_ipld_dagcbor`: `to_vec`, `from_slice`, and `from_reader_once` with what it leaves
  pub to_vec : Ipld C F → Result Text Bytes
  pub from_slice : Bytes → Result Text (Ipld C F)
  pub read_value : Bytes → Result Text (Ipld C F × Bytes)
  -- `{:?}` of a value
  pub debug : Ipld C F → Text
  -- `serde_json::Number`
  pub as_i64 : N → Option ℤ
  pub as_u64 : N → Option ℕ
  pub from_i64 : ℤ → N
  pub from_f64 : F → Option N
  -- the standard alphabet of `base64`
  pub base64 : Bytes → Text

-- `k256::ecdsa`: `SigningKey::from_bytes` and `sign_prehash`, the signature as bytes.
pub record Signer (K : Type 0) : Type 0 where
  pub key_from_bytes : Bytes → Result Text K
  pub sign_prehash : K → Bytes → Result Text Bytes

-- The range of `i64`.
abbrev pub InI64 : ℤ → Type 0
InI64 (pos n) = n < 2 ^ 63
InI64 (negsuc n) = n < 2 ^ 63

-- The documented behaviour: `==` on CIDs is equality, and the binary form of a CID and the
-- DAG-CBOR form of a value are read back as what was written.
pub record IsLawful {C F N : Type 0} (x : Formats C F N) : Type 0 where
  pub cid_eq_iff : (a b : C) → (x.cid_eq a b ≡ true) ↔ (a ≡ b)
  pub read_cid-cid_bytes :
      (c : C) (rest : Bytes) → x.read_cid (x.cid_bytes c ++ rest) ≡ ok (c, rest)
  pub from_slice-to_vec : (v : Ipld C F) (b : Bytes) → x.to_vec v ≡ ok b → x.from_slice b ≡ ok v
  pub parse_cid-cid_text : (c : C) → x.parse_cid (x.cid_text c) ≡ ok c
  pub codec-new_v1 : (code : ℕ) (hash : Bytes) → x.codec (x.new_v1 code hash) ≡ code
  -- `Number::as_i64` answers for the numbers that an `i64` holds, which `Number::from` gives back;
  -- the other integers are those that only a `u64` holds.
  pub from_i64-as_i64 : (n : N) (i : ℤ) → x.as_i64 n ≡ some i → x.from_i64 i ≡ n
  pub as_i64-InI64 : (n : N) (i : ℤ) → x.as_i64 n ≡ some i → InI64 i
  pub as_u64_large : (n : N) (k : ℕ) → x.as_i64 n ≡ none → x.as_u64 n ≡ some k → 2 ^ 63 ≤ k
