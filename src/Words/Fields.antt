-- ===== src/Words/Fields.antt =====
-- The native conjunction and disjunction on fields of digits: a mask cuts a field out, and fields
-- that do not meet are put together by a sum.
use Prim.Native.Nat.{min, max, digits, bitwise, bit_and, bit_or, bit_and-bitwise, bit_or-bitwise}
use native.Mathlib.Nat.{pow-suc}
use native.Mathlib.Decide.{dec_lt}
use mathlib.Core.WellFounded
use kinnow_os.Prelude.Order.{lt_wf}
use kinnow_os.Prelude.{
  ℕ, zero, suc, ◌+◌, ◌-◌, ◌*◌, ◌/◌, ◌%◌, ◌^◌, ◌≤◌, ◌<◌, ◌≡◌, refl, sym, ap, ◌∙◌, arith,
}

-- The recursion on digits needs no more rounds than the first number.
module _ (rest : ℕ → ℕ) (f : ℕ → ℕ → ℕ) where
  digits-enough : (c d x y : ℕ) → x ≤ c → x ≤ d → digits rest f c x y ≡ digits rest f d x y
  digits-enough zero zero x y p q = refl
  digits-enough c d zero y p q = digits_zero c y ∙ sym (digits_zero d y)
    where
      digits_zero : (c y : ℕ) → digits rest f c 0 y ≡ rest y
      digits_zero zero y = refl
      digits_zero (suc c) y = refl
  digits-enough zero (suc d) (suc x) y p q = absurd (omega arith)
  digits-enough (suc c) zero (suc x) y p q = absurd (omega arith)
  digits-enough (suc c) (suc d) (suc x) y p q =
      ap (λ (high : ℕ). high * 2 + f (suc x % 2) (y % 2))
        (digits-enough c d (suc x / 2) (y / 2) (omega arith) (omega arith))

-- An operation on digits, by halves; `right` is what it makes of a number and 0.
module _ (rest : ℕ → ℕ) (f : ℕ → ℕ → ℕ) (op : ℕ → ℕ → ℕ)
    (means : (x y : ℕ) → op x y ≡ bitwise rest f x y) where
  by_halves :
      ((y : ℕ) → rest y ≡ 2 * rest (y / 2) + f 0 (y % 2))
      → (x y : ℕ) → op x y ≡ 2 * op (x / 2) (y / 2) + f (x % 2) (y % 2)
  by_halves empty zero y = omega (arith, means 0 y, means 0 (y / 2), empty y)
  by_halves empty (suc x) y =
      let half =
        digits-enough rest f x (suc x / 2) (suc x / 2) (y / 2) (omega arith) (omega arith) in
      omega (arith, means (suc x) y, means (suc x / 2) (y / 2), half)

  with_zero :
      (right : ℕ → ℕ)
      → (op 0 0 ≡ right 0)
      → ((x y : ℕ) → op x y ≡ 2 * op (x / 2) (y / 2) + f (x % 2) (y % 2))
      → ((x : ℕ) → right x ≡ 2 * right (x / 2) + f (x % 2) 0)
      → (x : ℕ) → op x 0 ≡ right x
  with_zero right base halves halves' x =
      WellFounded.induction lt_wf {C = λ n. op n 0 ≡ right n} x λ n smaller. elim (dec_lt 0 n) [
        | yes p ↦ omega (arith, halves n 0, halves' n, smaller (n / 2) (omega arith))
        | no p ↦ let e : n ≡ 0 = omega arith in rw e base
      ]

-- The lowest digit of a conjunction and of a disjunction.
bit_and-halves : (x y : ℕ) → bit_and x y ≡ 2 * bit_and (x / 2) (y / 2) + min (x % 2) (y % 2)
bit_and-halves = by_halves (λ y. 0) min bit_and bit_and-bitwise (λ y. omega arith)

pub bit_or-halves : (x y : ℕ) → bit_or x y ≡ 2 * bit_or (x / 2) (y / 2) + max (x % 2) (y % 2)
bit_or-halves = by_halves (λ y. y) max bit_or bit_or-bitwise (λ y. omega arith)

bit_and-zero : (x : ℕ) → bit_and x 0 ≡ 0
bit_and-zero =
    with_zero (λ y. 0) min bit_and bit_and-bitwise (λ x. 0) refl bit_and-halves (λ x. omega arith)

pub bit_or-zero : (x : ℕ) → bit_or x 0 ≡ x
bit_or-zero =
    with_zero (λ y. y) max bit_or bit_or-bitwise (λ x. x) refl bit_or-halves (λ x. omega arith)

-- A number that is cut `k + 1` digits from its end is half of one that is cut after `k`.
double_field : (k h : ℕ) → h * 2 ^ suc k ≡ h * 2 ^ k * 2
double_field k h = grind (arith, pow-suc 2 k)

half_field :
    (k h l : ℕ) → ((h * 2 ^ suc k + l) / 2 ≡ h * 2 ^ k + l / 2) × ((h * 2 ^ suc k + l) % 2 ≡ l % 2)
half_field k h l = omega (arith, double_field k h)

-- Of two numbers that are cut after the same number of digits, the parts meet apart.
pub bit_and-fields :
    (k h l m n : ℕ)
    → l < 2 ^ k
    → n < 2 ^ k
    → bit_and (h * 2 ^ k + l) (m * 2 ^ k + n) ≡ bit_and h m * 2 ^ k + bit_and l n
bit_and-fields zero h zero m zero p q = ground (arith, bit_and-bitwise 0 0)
bit_and-fields zero h (suc l) m n p q = absurd (omega arith)
bit_and-fields zero h zero m (suc n) p q = absurd (omega arith)
bit_and-fields (suc k) h l m n p q = ground (
  arith,
  pow-suc 2 k,
  half_field k h l,
  half_field k m n,
  double_field k (bit_and h m),
  bit_and-halves (h * 2 ^ suc k + l) (m * 2 ^ suc k + n),
  bit_and-halves l n,
  bit_and-fields k h (l / 2) m (n / 2),
)

pub bit_or-fields :
    (k h l m n : ℕ)
    → l < 2 ^ k
    → n < 2 ^ k
    → bit_or (h * 2 ^ k + l) (m * 2 ^ k + n) ≡ bit_or h m * 2 ^ k + bit_or l n
bit_or-fields zero h zero m zero p q = ground (arith, bit_or-bitwise 0 0)
bit_or-fields zero h (suc l) m n p q = absurd (omega arith)
bit_or-fields zero h zero m (suc n) p q = absurd (omega arith)
bit_or-fields (suc k) h l m n p q = ground (
  arith,
  pow-suc 2 k,
  half_field k h l,
  half_field k m n,
  double_field k (bit_or h m),
  bit_or-halves (h * 2 ^ suc k + l) (m * 2 ^ suc k + n),
  bit_or-halves l n,
  bit_or-fields k h (l / 2) m (n / 2),
)

pub zero-bit_or : (a : ℕ) → bit_or 0 a ≡ a
zero-bit_or a = bit_or-bitwise 0 a

pub zero-bit_and : (a : ℕ) → bit_and 0 a ≡ 0
zero-bit_and a = bit_and-bitwise 0 a

bit_and-all : (k l : ℕ) → l < 2 ^ k → bit_and l (2 ^ k - 1) ≡ l
bit_and-all zero zero p = bit_and-zero 0
bit_and-all zero (suc l) p = absurd (omega arith)
bit_and-all (suc k) l p = ground (
  arith,
  pow-suc 2 k,
  bit_and-halves l (2 ^ suc k - 1),
  bit_and-all k (l / 2),
  let halved : (2 ^ suc k - 1) / 2 ≡ 2 ^ k - 1 = omega (arith, pow-suc 2 k) in halved,
)

-- A mask of `k` ones keeps the last `k` digits.
pub bit_and-ones : (k h l : ℕ) → l < 2 ^ k → bit_and (h * 2 ^ k + l) (2 ^ k - 1) ≡ l
bit_and-ones k h l p =
    ground (arith, bit_and-fields k h l 0 (2 ^ k - 1), bit_and-zero h, bit_and-all k l p)

-- A field above `k` digits is joined to these digits by a sum.
pub bit_or-join : (k h l : ℕ) → l < 2 ^ k → bit_or (h * 2 ^ k) l ≡ h * 2 ^ k + l
bit_or-join k h l p = ground (arith, bit_or-fields k h 0 0 l, bit_or-zero h, zero-bit_or l)

-- A mask of `w` ones above `k` digits keeps the `w` digits there.
pub bit_and-field :
    (k w h m l : ℕ)
    → l < 2 ^ k
    → m < 2 ^ w
    → bit_and ((h * 2 ^ w + m) * 2 ^ k + l) ((2 ^ w - 1) * 2 ^ k) ≡ m * 2 ^ k
bit_and-field k w h m l p q =
    ground (
      arith,
      bit_and-fields k (h * 2 ^ w + m) l (2 ^ w - 1) 0,
      bit_and-ones w h m q,
      bit_and-zero l,
    )

-- A mask of ones keeps a remainder, and one of `w` ones above `k` digits a part of it.
pub low_bits : (k a h l : ℕ) → a ≡ h * 2 ^ k + l → l < 2 ^ k → bit_and a (2 ^ k - 1) ≡ l
low_bits k a h l e p = rw e (bit_and-ones k h l p)

-- The part of `w` digits above the last `k`.
pub middle_bits :
    (k w a h m l : ℕ)
    → a ≡ (h * 2 ^ w + m) * 2 ^ k + l
    → l < 2 ^ k
    → m < 2 ^ w
    → bit_and a ((2 ^ w - 1) * 2 ^ k) ≡ m * 2 ^ k
middle_bits k w a h m l e p q = rw e (bit_and-field k w h m l p q)

-- Two parts that do not meet.
pub join_bits : (k a h l : ℕ) → a ≡ h * 2 ^ k → l < 2 ^ k → bit_or a l ≡ a + l
join_bits k a h l e p = rw e (bit_or-join k h l p)
