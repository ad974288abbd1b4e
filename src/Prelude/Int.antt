-- ===== src/Prelude/Int.antt =====
-- Signed numbers (`i32`, `i64`).
use Prim.Native.Nat.{ℕ, suc, ◌-◌, ◌^◌}
use mathlib.Core.Bool.{Bool, false}
use gmv_pjsip.Prelude.Tests.{◌==◌, if◌then◌else◌}

-- `negsuc n` is -(n + 1).
pub data ℤ : Type 0 where
  pos : ℕ → ℤ
  negsuc : ℕ → ℤ

abbrev pub is_zero : ℤ → Bool
is_zero (pos n) = n == 0
is_zero (negsuc n) = false

-- `i32::abs`, which wraps round at the least value
abbrev pub abs_i32 : ℤ → ℤ
abs_i32 (pos n) = pos n
abs_i32 (negsuc n) = if n == 2 ^ 31 - 1 then negsuc n else pos (suc n)

-- `x.max(1)`
abbrev pub max_one : ℤ → ℤ
max_one (pos n) = if n == 0 then pos 1 else pos n
max_one (negsuc n) = pos 1

abbrev pub negate : ℤ → ℤ
negate (pos n) = if n == 0 then pos 0 else negsuc (n - 1)
negate (negsuc n) = pos (suc n)
