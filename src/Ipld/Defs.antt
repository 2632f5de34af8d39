-- ===== src/Ipld/Defs.antt =====
-- `ipld_core::Ipld`: the constructors are those that `ipld_to_json` matches on, exhaustively
-- (core/src/atproto/firehose.rs). `C` is the type of CIDs and `F` that of floats.

use dais.Base.{ℕ, Text, Bytes, Bool}

-- An `i128`; `negsuc n` is -(n + 1).
pub data ℤ : Type 0 where
  pos : ℕ → ℤ
  negsuc : ℕ → ℤ

mutual
  pub data Ipld (C F : Type 0) : Type 0 where
    null : Ipld C F
    bool : Bool → Ipld C F
    integer : ℤ → Ipld C F
    float : F → Ipld C F
    string : Text → Ipld C F
    raw : Bytes → Ipld C F
    list : Items C F → Ipld C F
    dict : Fields C F → Ipld C F
    link : C → Ipld C F

  pub data Items (C F : Type 0) : Type 0 where
    nil : Items C F
    cons : Ipld C F → Items C F → Items C F

  pub data Fields (C F : Type 0) : Type 0 where
    end : Fields C F
    field : Text → Ipld C F → Fields C F → Fields C F
