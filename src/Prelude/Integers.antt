-- ===== src/Prelude/Integers.antt =====
-- Go's int64, by the sign.
use Prim.Native.Nat.{ℕ, zero, suc}
use mathlib.Core.Option.{Option, none, some}

-- pos n is n, negsuc n is -(n + 1).
pub data Int64 : Type 0 where
  pos negsuc : ℕ → Int64

-- `n > 0`
abbrev pub positive : Int64 → Option ℕ
positive (pos zero) = none
positive (pos (suc n)) = some (suc n)
positive (negsuc n) = none
