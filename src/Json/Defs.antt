-- ===== src/Json/Defs.antt =====
-- The data type of JSON values, with its lists and members in one block.
use dais.Base.{Text, Bool}

mutual
  pub data Value (N : Type 0) : Type 0 where
    null : Value N
    bool : Bool → Value N
    number : N → Value N
    string : Text → Value N
    array : Values N → Value N
    object : Members N → Value N

  pub data Values (N : Type 0) : Type 0 where
    nil : Values N
    cons : Value N → Values N → Values N

  pub data Members (N : Type 0) : Type 0 where
    end : Members N
    member : Text → Value N → Members N → Members N
