-- ===== src/Base/Floats.antt =====
-- The floating-point operations that the code takes from the compiler and `<stdlib.h>`, over any
-- type `D` of doubles and `S` of floats. An `int` is its 32-bit pattern.
use Prim.Native.Nat.{ℕ}
use mathlib.Core.Bool.{Bool}
use mathlib.Core.Option.{Option}
use ccore.Base.CString.{CString}

pub record Floats (D S : Type 0) : Type 0 where
  pub zero : D
  pub one : D
  -- `x != 0`
  pub is_nonzero : D → Bool
  -- the conversion of a double to `int`; `none` is one out of range, which is undefined
  pub to_int : D → Option ℕ
  pub to_float : D → S
  pub atof : CString → D
