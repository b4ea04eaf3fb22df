-- ===== src/Base/Int.antt =====
-- Signed integers over the native numbers, under the library's names: C's `long long` arguments and
-- times. The code only compares and stores them.
use Prim.Native.Nat.{ℕ, suc, ◌+◌, ◌-◌, ◌^◌, ◌%◌}
use mathlib.Core.Bool.{Bool}
use redis_fs.Base.Tests.{ltb, if◌then◌else◌}

-- `negsuc n` is -(n + 1).
pub data ℤ : Type 0 where
  pos : ℕ → ℤ
  negsuc : ℕ → ℤ

abbrev pub pos_part : ℤ → ℕ
pos_part (pos n) = n
pos_part (negsuc n) = 0

abbrev pub neg_part : ℤ → ℕ
neg_part (pos n) = 0
neg_part (negsuc n) = suc n

abbrev pub ltb_ℤ : ℤ → ℤ → Bool
ltb_ℤ a b = ltb (pos_part a + neg_part b) (pos_part b + neg_part a)

-- The conversion of a `uint64_t` to `long long`.
unfoldable pub to_long_long : ℕ → ℤ
to_long_long n = if ltb n (2 ^ 63) then pos n else negsuc (2 ^ 64 - 1 - n % 2 ^ 64)
