-- ===== src/Words/Xor.antt =====
-- Laws of the native exclusive or, from its definition on binary digits.
use Prim.Native.Nat.{digits, bitwise, differ, bit_xor, bit_xor-bitwise}
use native.Mathlib.Nat.{pow-suc}
use native.Mathlib.Decide.{dec_le}
use kinnow_os.Prelude.{ℕ, zero, suc, ◌+◌, ◌*◌, ◌/◌, ◌%◌, ◌^◌, ◌≤◌, ◌<◌, ◌≡◌, refl, ap, ◌∙◌, arith}

abbrev xor_digits : ℕ → ℕ → ℕ → ℕ
xor_digits count x y = digits (λ rest. rest) differ count x y

-- A count beyond the number itself may be lowered by one.
xor_digits-pred : (c x y : ℕ) → x ≤ c → xor_digits (suc c) x y ≡ xor_digits c x y
xor_digits-pred zero zero y fits = refl
xor_digits-pred zero (suc x) y fits = elim fits [ ]
xor_digits-pred (suc c) zero y fits = refl
xor_digits-pred (suc c) (suc x) y fits =
    ap (λ (high : ℕ). high * 2 + differ (suc x % 2) (y % 2))
      (xor_digits-pred c (suc x / 2) (y / 2) (omega arith))

xor_digits-bitwise : (c x y : ℕ) → x ≤ c → xor_digits c x y ≡ bitwise (λ rest. rest) differ x y
xor_digits-bitwise zero x y fits = let e : x ≡ 0 = omega arith in rw e
xor_digits-bitwise (suc c) x y fits = elim (dec_le x c) [
  | yes below ↦ xor_digits-pred c x y below ∙ xor_digits-bitwise c x y below
  | no above ↦ let e : x ≡ suc c = omega arith in rw e
]

differ-mod : (x y : ℕ) → x < 2 → y < 2 → differ x y ≡ (x + y) % 2
differ-mod zero y hx hy = omega arith
differ-mod (suc zero) zero hx hy = refl
differ-mod (suc zero) (suc zero) hx hy = refl
differ-mod (suc zero) (suc (suc y)) hx hy = absurd (omega arith)
differ-mod (suc (suc x)) y hx hy = absurd (omega arith)

-- The lowest digit of an exclusive or.
pub bit_xor_step : (a b : ℕ) → bit_xor a b ≡ bit_xor (a / 2) (b / 2) * 2 + (a + b) % 2
bit_xor_step zero b = omega (arith, bit_xor-bitwise 0 b, bit_xor-bitwise 0 (b / 2))
bit_xor_step (suc a) b = omega (
  arith,
  bit_xor-bitwise (suc a) b,
  bit_xor-bitwise (suc a / 2) (b / 2),
  xor_digits-bitwise a (suc a / 2) (b / 2) (omega arith),
  differ-mod (suc a % 2) (b % 2) (omega arith) (omega arith),
)

bit_xor_halves :
    (a b : ℕ) → (bit_xor a b / 2 ≡ bit_xor (a / 2) (b / 2)) × (bit_xor a b % 2 ≡ (a + b) % 2)
bit_xor_halves a b = omega (arith, bit_xor_step a b)

bit_xor_twice_fuel : (n a b : ℕ) → a ≤ n → b ≤ n → bit_xor (bit_xor a b) b ≡ a
bit_xor_twice_fuel zero zero zero p q = refl
bit_xor_twice_fuel zero (suc a) b p q = absurd (omega arith)
bit_xor_twice_fuel zero zero (suc b) p q = absurd (omega arith)
bit_xor_twice_fuel (suc n) a b p q = ground (
  arith,
  bit_xor_step (bit_xor a b) b,
  bit_xor_halves a b,
  bit_xor_twice_fuel n (a / 2) (b / 2) (omega arith) (omega arith),
)

-- `x ^= b` twice gives `x` back.
pub bit_xor_twice : (a b : ℕ) → bit_xor (bit_xor a b) b ≡ a
bit_xor_twice a b = bit_xor_twice_fuel (a + b) a b (omega arith) (omega arith)

bit_xor_comm_fuel : (n a b : ℕ) → a ≤ n → b ≤ n → bit_xor a b ≡ bit_xor b a
bit_xor_comm_fuel zero zero zero p q = refl
bit_xor_comm_fuel zero (suc a) b p q = absurd (omega arith)
bit_xor_comm_fuel zero zero (suc b) p q = absurd (omega arith)
bit_xor_comm_fuel (suc n) a b p q = omega (
  arith,
  bit_xor_step a b,
  bit_xor_step b a,
  bit_xor_comm_fuel n (a / 2) (b / 2) (omega arith) (omega arith),
)

pub bit_xor_comm : (a b : ℕ) → bit_xor a b ≡ bit_xor b a
bit_xor_comm a b = bit_xor_comm_fuel (a + b) a b (omega arith) (omega arith)

-- `x = b ^ x` twice gives `x` back too.
pub bit_xor_twice_left : (a b : ℕ) → bit_xor b (bit_xor b a) ≡ a
bit_xor_twice_left a b = rw (bit_xor_comm b a, bit_xor_comm b (bit_xor a b)) (bit_xor_twice a b)

-- The exclusive or of two `k`-bit words is a `k`-bit word.
pub bit_xor-lt : (k a b : ℕ) → a < 2 ^ k → b < 2 ^ k → bit_xor a b < 2 ^ k
bit_xor-lt zero zero zero p q = omega arith
bit_xor-lt zero (suc a) b p q = absurd (omega arith)
bit_xor-lt zero zero (suc b) p q = absurd (omega arith)
bit_xor-lt (suc k) a b p q =
    let e = pow-suc 2 k in
    omega (arith, bit_xor_step a b, bit_xor-lt k (a / 2) (b / 2) (omega arith) (omega arith))

bit_xor_assoc_fuel :
    (n a b c : ℕ) → a ≤ n → b ≤ n → c ≤ n → bit_xor (bit_xor a b) c ≡ bit_xor a (bit_xor b c)
bit_xor_assoc_fuel zero zero zero zero p q r = refl
bit_xor_assoc_fuel zero (suc a) b c p q r = absurd (omega arith)
bit_xor_assoc_fuel zero zero (suc b) c p q r = absurd (omega arith)
bit_xor_assoc_fuel zero zero zero (suc c) p q r = absurd (omega arith)
bit_xor_assoc_fuel (suc n) a b c p q r = ground (
  arith,
  bit_xor_step (bit_xor a b) c,
  bit_xor_step a (bit_xor b c),
  bit_xor_halves a b,
  bit_xor_halves b c,
  bit_xor_assoc_fuel n (a / 2) (b / 2) (c / 2) (omega arith) (omega arith) (omega arith),
)

pub bit_xor_assoc : (a b c : ℕ) → bit_xor (bit_xor a b) c ≡ bit_xor a (bit_xor b c)
bit_xor_assoc a b c = bit_xor_assoc_fuel (a + b + c) a b c (omega arith) (omega arith) (omega arith)
