-- ===== src/Prelude/Words.antt =====
-- `uint64` arithmetic: Go wraps around at 2 ^ 64.
use Prim.Native.Nat.{ℕ, ◌+◌, ◌-◌, ◌%◌, ◌^◌, ◌≤◌, ◌<◌}
use mathlib.Core.Path.{◌≡◌}
use native.Mathlib.Omega.{arith}

abbrev pub u64 : ℕ → ℕ
u64 x = x % 2 ^ 64

-- `a - b` on uint64.
abbrev pub sub64 : ℕ → ℕ → ℕ
sub64 a b = (a + 2 ^ 64 - b) % 2 ^ 64

abbrev pub IsU64 : ℕ → Type 0
IsU64 x = x < 2 ^ 64

pub u64_id : (x : ℕ) → IsU64 x → u64 x ≡ x
u64_id x h = omega arith

pub sub64_id : (a b : ℕ) → b ≤ a → IsU64 a → sub64 a b ≡ a - b
sub64_id a b h u = omega arith
