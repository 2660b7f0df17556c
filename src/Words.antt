-- ===== src/Words.antt =====
-- Fixed-width unsigned words as numbers: the wrap of `uint8_t`, `uint32_t` and `uint64_t`
-- arithmetic is written out, shifts are products and quotients.
mod Xor
mod Fields
pub use Xor.*
pub use Fields.*
pub use Prim.Native.Nat.{bit_and, bit_or, bit_xor}
use kinnow_os.Prelude.{ℕ, ◌+◌, ◌-◌, ◌*◌, ◌/◌, ◌%◌, ◌^◌, ◌≤◌, ◌<◌, ◌≡◌, arith}

-- `a + b`, `a - b` and `x << k` in `uint32_t`.
abbrev pub add32 : ℕ → ℕ → ℕ
add32 a b = (a + b) % 2 ^ 32

abbrev pub sub32 : ℕ → ℕ → ℕ
sub32 a b = (a + 2 ^ 32 - b) % 2 ^ 32

abbrev pub shl32 : ℕ → ℕ → ℕ
shl32 x k = x * 2 ^ k % 2 ^ 32

abbrev pub shr : ℕ → ℕ → ℕ
shr x k = x / 2 ^ k

pub sub32-add32 : (a b : ℕ) → a < 2 ^ 32 → b < 2 ^ 32 → sub32 (add32 a b) b ≡ a
sub32-add32 a b ha hb = omega arith
