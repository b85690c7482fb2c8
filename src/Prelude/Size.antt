-- ===== src/Prelude/Size.antt =====
-- `std::size_t`: sums and differences are taken modulo 2 ^ 64.
use Prim.Native.Nat.{ℕ, ◌+◌, ◌-◌, ◌%◌, ◌^◌, ◌≤◌, ◌<◌}
use mathlib.Core.Path.{◌≡◌}
use native.Mathlib.Omega.{arith}

abbrev pub size_limit : ℕ
size_limit = 2 ^ 64

abbrev pub add_size : ℕ → ℕ → ℕ
add_size a b = (a + b) % size_limit

abbrev pub sub_size : ℕ → ℕ → ℕ
sub_size a b = (a + size_limit - b) % size_limit

pub add_size_exact : (a b : ℕ) → a + b < size_limit → add_size a b ≡ a + b
add_size_exact a b h = omega arith

pub sub_size_exact : (a b : ℕ) → a < size_limit → b ≤ a → sub_size a b ≡ a - b
sub_size_exact a b h le = omega arith
