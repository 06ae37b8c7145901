-- ===== src/Prelude/Int.antt =====
-- Signed integers over the native numbers: Go's int and int64, which are 64 bits wide here.
use Prim.Native.Nat.{ℕ, suc, ◌-◌, ◌^◌, ◌≤◌}
use mathlib.Core.Bool.{Bool, ◌&&◌}
use stripelink.Prelude.Tests.{ltb, leb, eqb}

-- `negsuc n` is -(n + 1).
pub data ℤ : Type 0 where
  pos : ℕ → ℤ
  negsuc : ℕ → ℤ

abbrev pub pos_part : ℤ → ℕ
pos_part (pos n) = n
pos_part (negsuc n) = 0

abbrev pub neg_part : ℤ → ℕ
neg_part (pos n) = 0
neg_part (negsuc n) = suc n

abbrev pub ◌==ℤ◌ : ℤ → ℤ → Bool
◌==ℤ◌ a b = eqb (pos_part a) (pos_part b) && eqb (neg_part a) (neg_part b)

-- z ≤ 0, z < 0
abbrev pub not_positive : ℤ → Bool
not_positive z = eqb (pos_part z) 0

abbrev pub is_negative : ℤ → Bool
is_negative z = ltb 0 (neg_part z)

-- math.MaxInt64
abbrev pub max_int64 : ℕ
max_int64 = 2 ^ 63 - 1

abbrev pub in_int64 : ℤ → Bool
in_int64 z = leb (pos_part z) max_int64 && leb (neg_part z) (2 ^ 63)

abbrev pub IsInt64 : ℤ → Type 0
IsInt64 z = (pos_part z ≤ max_int64) × (neg_part z ≤ 2 ^ 63)
