-- ===== src/Base/Word.antt =====
-- Machine-width counters: `uint64_t` addition and subtraction wrap.
use Prim.Native.Nat.{ℕ, ◌+◌, ◌-◌, ◌%◌, ◌^◌}
use mathlib.Core.Path.{◌≡◌}
use native.Mathlib.Omega.{arith}

abbrev pub u64_mod : ℕ
u64_mod = 2 ^ 64

unfoldable pub add64 : ℕ → ℕ → ℕ
add64 a b = (a + b) % u64_mod

unfoldable pub sub64 : ℕ → ℕ → ℕ
sub64 a b = (a + u64_mod - b % u64_mod) % u64_mod

-- A counter that agrees with `n` modulo 2^64 still does after both grow, and after both shrink.
pub add64_tracks : (a n b : ℕ) → a ≡ n % u64_mod → add64 a b ≡ (n + b) % u64_mod
unfolding add64
add64_tracks a n b h = omega arith

pub sub64_tracks : (a n b : ℕ) → a ≡ (n + b) % u64_mod → sub64 a b ≡ n % u64_mod
unfolding sub64
sub64_tracks a n b h = omega arith
