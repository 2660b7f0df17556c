-- ===== src/Libio/Number/Digits.antt =====
-- sys/libio/stdlib.cxx, libio_ulltoa: the digits that the loop makes.
use kinnow_os.Prelude.{
  ℕ, zero, suc, ◌+◌, ◌-◌, ◌*◌, ◌/◌, ◌%◌, ◌^◌, ◌<◌, ◌≤◌, ◌≡◌, refl, ap, sym, ◌∙◌, Bool, true, false,
  ◌&&◌, ◌||◌, some, List, [], ◌∷◌, ◌++◌, arith, leb, ltb, ◌==◌, if◌then◌else◌, length,
  length-append,
}
use native.Mathlib.Nat.{
  div-add-mod, div-lt_iff_lt-mul, mod-lt, mul_comm, mul-suc, pow-suc, pow-zero,
}
use kinnow_os.Libio.Number.{digit_char, ulltoa_loop}

abbrev pub digit_value : ℕ → ℕ
digit_value c = if leb b'A' c then c - b'A' + 10 else c - b'0'

-- The number that digits stand for, behind the digits of `n`.
abbrev pub value : ℕ → List ℕ → ℕ → ℕ
value base [] n = n
value base (c ∷ cs) n = value base cs (n * base + digit_value c)

abbrev pub is_digit_of : ℕ → ℕ → Bool
is_digit_of base c = leb b'0' c && ((leb c b'9' || leb b'A' c) && ltb (digit_value c) base)

abbrev pub all_digits : ℕ → List ℕ → Bool
all_digits base [] = true
all_digits base (c ∷ cs) = is_digit_of base c && all_digits base cs

module _ (base : ℕ) where
  value-append :
      (ds : List ℕ) (c n : ℕ)
      → value base (ds ++ (c ∷ [])) n ≡ value base ds n * base + digit_value c
  value-append [] c n = refl
  value-append (d ∷ ds) c n = value-append ds c (n * base + digit_value d)

  all_digits-append :
      (ds : List ℕ) (c : ℕ)
      → all_digits base ds ≡ true
      → is_digit_of base c ≡ true
      → all_digits base (ds ++ (c ∷ [])) ≡ true
  all_digits-append [] c h digit = ground (arith, digit)
  all_digits-append (d ∷ ds) c h digit = ground (arith, h, all_digits-append ds c)

pub value-grows : (b : ℕ) (ds : List ℕ) (n : ℕ) → n ≤ value (suc b) ds n
value-grows b [] n = omega arith
value-grows b (c ∷ cs) n = omega (arith, mul-suc n b, value-grows b cs (n * suc b + digit_value c))

pub append-nil : (xs : List ℕ) → xs ++ [] ≡ xs
append-nil [] = refl
append-nil (x ∷ xs) = ap (λ ys. x ∷ ys) (append-nil xs)

pub append_assoc : (xs : List ℕ) (c : ℕ) (ys : List ℕ) → (xs ++ (c ∷ [])) ++ ys ≡ xs ++ (c ∷ ys)
append_assoc [] c ys = refl
append_assoc (x ∷ xs) c ys = ap (λ zs. x ∷ zs) (append_assoc xs c ys)

digit_char_lem :
    (base rem : ℕ)
    → rem < base
    → (is_digit_of base (digit_char rem) ≡ true) × (digit_value (digit_char rem) ≡ rem)
digit_char_lem base rem h = (ground arith, ground arith)

pub div_below : (base v f : ℕ) → 2 ≤ base → v < base ^ suc f → v / base < base ^ f
div_below base v f two h = (div-lt_iff_lt-mul (omega arith)).1 (rw (sym (pow-suc base f)) h)

-- With fuel for its digits and one more, the loop puts the digits of a number in any base from 2 on in
-- front of the text: they stand for the number, and are no more than the fuel allows.
pub ulltoa_loop_lem :
    (fuel base val : ℕ) (text : List ℕ)
    → 2 ≤ base
    → val < base ^ fuel
    → (ds : List ℕ) × (ulltoa_loop (suc fuel) val base text ≡ some (ds ++ text))
      × (all_digits base ds ≡ true)
      × (value base ds 0 ≡ val)
      × (length ds ≤ fuel)
unfolding ulltoa_loop
ulltoa_loop_lem fuel base zero text two h = ([], refl, refl, refl, omega arith)
ulltoa_loop_lem zero base (suc v) text two h = absurd (omega (arith, pow-zero base))
ulltoa_loop_lem (suc fuel) base (suc v) text two h =
    let full : (suc v == 0) ≡ false = ground arith in
    let q = suc v / base in
    let r = suc v % base in
    let c = digit_char r in
    let whole : base * q + r ≡ suc v = div-add-mod (suc v) base in
    let small : r < base = mod-lt (suc v) (omega arith) in
    let less : q < base ^ fuel =
      (div-lt_iff_lt-mul (omega arith)).1 (rw (sym (pow-suc base fuel)) h) in
    let (is, ds_val) = digit_char_lem base r small in
    let (ds, run, digits, number, short) = ulltoa_loop_lem fuel base q (c ∷ text) two less in
    (
      ds ++ (c ∷ []),
      rw (ulltoa_loop, full) (run ∙ ap some (sym (append_assoc ds c text))),
      all_digits-append base ds c digits is,
      value-append base ds c 0 ∙ (rw (number, ds_val, mul_comm q base) whole),
      omega (arith, length-append ds (c ∷ []), short),
    )
