-- ===== src/Prelude/Int.antt =====
-- Go's `int` flags: signed numbers over the native ℕ. `negsuc n` is -(n + 1).
use Prim.Native.Nat.{ℕ, compare, Ordering}
use mathlib.Core.Bool.{Bool, true, false}

pub data ℤ : Type 0 where
  pos : ℕ → ℤ
  negsuc : ℕ → ℤ

abbrev pub pos_part : ℤ → ℕ
pos_part (pos n) = n
pos_part (negsuc n) = 0

-- `n >= z`
abbrev pub at_least : ℕ → ℤ → Bool
at_least n (pos m) = elim (compare m n) [ Ordering.gt ↦ false | _ ↦ true ]
at_least n (negsuc m) = true
