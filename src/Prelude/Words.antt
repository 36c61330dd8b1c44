-- ===== src/Prelude/Words.antt =====
-- `size_t` arithmetic of a 64-bit target: it wraps at 2^64.
use Prim.Native.Nat.{ℕ, ◌+◌, ◌-◌, ◌%◌, ◌^◌, ◌≤◌, ◌<◌}
use mathlib.Core.Path.{◌≡◌}
use native.Mathlib.Omega.{arith}

unfoldable pub add_size : ℕ → ℕ → ℕ
add_size a b = (a + b) % 2 ^ 64

unfoldable pub sub_size : ℕ → ℕ → ℕ
sub_size a b = (a + 2 ^ 64 - b) % 2 ^ 64

pub add_size_small : (a b : ℕ) → a + b < 2 ^ 64 → add_size a b ≡ a + b
unfolding add_size
add_size_small a b h = omega arith

pub sub_size_small : (a b : ℕ) → b ≤ a → a < 2 ^ 64 → sub_size a b ≡ a - b
unfolding sub_size
sub_size_small a b h k = omega arith
