-- ===== src/Base/Int.antt =====
-- Whole numbers, as the amounts that a payload carries.
use Prim.Native.Nat.{ℕ, zero, suc, ◌+◌, ◌-◌}

-- `negsuc n` is -(n + 1).
pub data ℤ : Type 0 where
  pos : ℕ → ℤ
  negsuc : ℕ → ℤ

abbrev pub neg : ℤ → ℤ
neg (pos zero) = pos zero
neg (pos (suc n)) = negsuc n
neg (negsuc n) = pos (suc n)

-- GREATEST(n + d, 0)
abbrev pub shift : ℕ → ℤ → ℕ
shift n (pos d) = n + d
shift n (negsuc d) = n - suc d
