-- ===== src/Base/Ints.antt =====
-- A C `int` that counts up and down, over the native numbers; it is far from its bounds.
use Prim.Native.Nat.{ℕ, zero, suc, ◌+◌}
use mathlib.Core.Bool.{Bool, true, false}

pub data ℤ : Type 0 where
  pos negsuc : ℕ → ℤ

-- `x++`
abbrev pub sucℤ : ℤ → ℤ
sucℤ (pos n) = pos (n + 1)
sucℤ (negsuc zero) = pos 0
sucℤ (negsuc (suc n)) = negsuc n

-- `x--`
abbrev pub predℤ : ℤ → ℤ
predℤ (pos zero) = negsuc 0
predℤ (pos (suc n)) = pos n
predℤ (negsuc n) = negsuc (n + 1)

-- `x == 0`
abbrev pub is_zeroℤ : ℤ → Bool
is_zeroℤ (pos zero) = true
is_zeroℤ (pos (suc n)) = false
is_zeroℤ (negsuc n) = false
