-- ===== src/Base/Word.antt =====
-- Unsigned machine integers as native numbers, with their wrap-around.
use Prim.Native.Nat.{ℕ, ◌+◌, ◌-◌, ◌*◌, ◌%◌, ◌^◌}

abbrev pub mod16 : ℕ
mod16 = 2 ^ 16

abbrev pub mod32 : ℕ
mod32 = 2 ^ 32

abbrev pub mod64 : ℕ
mod64 = 2 ^ 64

-- `a + b` and `a - b` on uint32_t.
abbrev pub add32 : ℕ → ℕ → ℕ
add32 a b = (a + b) % mod32

abbrev pub sub32 : ℕ → ℕ → ℕ
sub32 a b = (a + mod32 - b) % mod32

-- `a + b`, `a - b` and `a * b` on uint64_t and size_t.
abbrev pub add64 : ℕ → ℕ → ℕ
add64 a b = (a + b) % mod64

abbrev pub sub64 : ℕ → ℕ → ℕ
sub64 a b = (a + mod64 - b) % mod64

abbrev pub mul64 : ℕ → ℕ → ℕ
mul64 a b = a * b % mod64
