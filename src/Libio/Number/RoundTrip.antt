-- ===== src/Libio/Number/RoundTrip.antt =====
-- sys/libio/stdlib.cxx: `atoi` of what `libio_ulltoa` writes.
use kinnow_os.Prelude.{
  ◌%◌, none, ℕ, zero, suc, ◌+◌, ◌-◌, ◌*◌, ◌^◌, ◌<◌, ◌≤◌, ◌≡◌, refl, ap, ◌∙◌, Bool, true, false,
  ◌&&◌, some, List, [], ◌∷◌, arith, leb, ◌==◌,
}
use kinnow_os.Prelude.Int.{pos, ◌-ℤ◌}
use kinnow_os.Prelude.Table.{holds_from, holds_from_lem, beq, beq_lem}
use kinnow_os.Libio.Ctype.{is_digit, is_xdigit, is_xdigit_lem}
use kinnow_os.Libio.Number.{
  ulltoa_loop, ulltoa, atoi_loop, skip_blanks, atoi_unsigned, with_sign, atoi_signed, atoi,
}
use kinnow_os.Libio.Number.Digits.{
  digit_value, value, all_digits, is_digit_of, value-grows, append-nil, ulltoa_loop_lem,
}

digit_table : holds_from (λ c. beq (is_digit c) (leb b'0' c && leb c b'9')) 0 256 ≡ true
unfolding holds_from is_digit
digit_table = refl

is_digit_lem : (c : ℕ) → c < 256 → is_digit c ≡ (leb b'0' c && leb c b'9')
is_digit_lem c small = beq_lem _ _ (
    holds_from_lem (λ d. beq (is_digit d) (leb b'0' d && leb d b'9')) 0 256 digit_table
      (omega arith) small)

digit_of_ten : (c : ℕ) → is_digit_of 10 c ≡ true → (is_digit c ≡ true) × (b'0' ≤ c) × (c ≤ b'9')
digit_of_ten c h = (ground (arith, h, is_digit_lem c), ground (arith, h), ground (arith, h))

-- The digits of an `int` are read as their number, with any class that has the digits.
atoi_loop_lem :
    (hit : ℕ → Bool)
    → ((c : ℕ) → c < 256 → hit c ≡ is_digit c)
    → (ds : List ℕ) (n : ℕ) → all_digits 10 ds ≡ true
    → value 10 ds n < 2 ^ 31
    → atoi_loop hit ds n ≡ some (value 10 ds n)
unfolding atoi_loop
atoi_loop_lem hit same [] n digits small = refl
atoi_loop_lem hit same (c ∷ cs) n digits small =
    let (is, low, high) = digit_of_ten c (ground (arith, digits)) in
    let at : digit_value c ≡ c - b'0' = ground arith in
    let next = n * 10 + (c - b'0') in
    ground (arith, digits, is, at, same c, value-grows 9 cs next, atoi_loop_lem hit same cs next)

decimal_loop_lem :
    (ds : List ℕ) (n : ℕ)
    → all_digits 10 ds ≡ true
    → value 10 ds n < 2 ^ 31
    → atoi_loop is_digit ds n ≡ some (value 10 ds n)
decimal_loop_lem = atoi_loop_lem is_digit (λ c small. refl)

atoi_unsigned_lem :
    (ds : List ℕ)
    → all_digits 10 ds ≡ true
    → value 10 ds 0 < 2 ^ 31
    → atoi_unsigned ds ≡ some (value 10 ds 0)
unfolding atoi_unsigned
atoi_unsigned_lem [] digits small = refl
atoi_unsigned_lem (c ∷ []) digits small = ground (arith, decimal_loop_lem (c ∷ []) 0 digits small)
atoi_unsigned_lem (c ∷ d ∷ cs) digits small =
    let (is, low, high) = digit_of_ten d (ground (arith, digits)) in
    ground (
      arith,
      digits,
      low,
      high,
      decimal_loop_lem (c ∷ d ∷ cs) 0 digits small,
      decimal_loop_lem (d ∷ cs) 0,
    )

atoi-digits :
    (ds : List ℕ)
    → all_digits 10 ds ≡ true
    → value 10 ds 0 < 2 ^ 31
    → atoi ds ≡ some (pos (value 10 ds 0))
unfolding atoi
atoi-digits [] digits small = refl
atoi-digits (c ∷ cs) digits small =
    let (is, low, high) = digit_of_ten c (ground (arith, digits)) in
    let behind : skip_blanks (c ∷ cs) ≡ c ∷ cs = ground arith in
    let sign : (c == b'-') ≡ false = ground arith in
    rw (behind, atoi_signed, sign, atoi_unsigned_lem (c ∷ cs) digits small) refl

atoi-minus :
    (ds : List ℕ)
    → all_digits 10 ds ≡ true
    → value 10 ds 0 < 2 ^ 31
    → atoi (b'-' ∷ ds) ≡ some (pos 0 -ℤ pos (value 10 ds 0))
unfolding atoi
atoi-minus ds digits small = rw (atoi_signed, atoi_unsigned_lem ds digits small) refl

ulltoa-positive :
    (fuel v : ℕ) (is_signed : Bool) (text : List ℕ)
    → 0 < v
    → v < 2 ^ 63
    → ulltoa_loop fuel v 10 [] ≡ some text
    → ulltoa fuel v 10 is_signed ≡ some text
unfolding ulltoa
ulltoa-positive fuel v is_signed text some_digit small run = ground (arith, run)

ulltoa-negative :
    (fuel v : ℕ) (text : List ℕ)
    → 0 < v
    → v < 2 ^ 63
    → ulltoa_loop fuel v 10 [] ≡ some text
    → ulltoa fuel (2 ^ 64 - v) 10 true ≡ some (b'-' ∷ text)
unfolding ulltoa
ulltoa-negative fuel v text some_digit small run =
    let back : 2 ^ 64 - (2 ^ 64 - v) ≡ v = omega arith in
    let full : (2 ^ 64 - v == 0) ≡ false = ground arith in
    let high : leb (2 ^ 63) (2 ^ 64 - v) ≡ true = ground arith in
    rw (ulltoa, full, high, back, run) refl

decimal_digits :
    (v : ℕ)
    → v < 2 ^ 31
    → (ds : List ℕ) × (ulltoa_loop 11 v 10 [] ≡ some ds)
      × (all_digits 10 ds ≡ true)
      × (value 10 ds 0 ≡ v)
decimal_digits v small =
    let (ds, run, digits, number, short) = ulltoa_loop_lem 10 10 v [] (omega arith) (omega arith) in
    (ds, run ∙ ap some (append-nil ds), digits, number)

-- The text of INT_MIN, whose digits are none of `int`.
least_text : List ℕ
least_text = b'-' ∷ b'2' ∷ b'1' ∷ b'4' ∷ b'7' ∷ b'4' ∷ b'8' ∷ b'3' ∷ b'6' ∷ b'4' ∷ b'8' ∷ []

least-ulltoa : ulltoa 11 (2 ^ 64 - 2 ^ 31) 10 true ≡ some least_text
unfolding ulltoa ulltoa_loop least_text
least-ulltoa = refl

least-atoi : atoi least_text ≡ none
unfolding atoi least_text skip_blanks atoi_signed atoi_unsigned atoi_loop
least-atoi = refl

atoi-ulltoa_pos :
    (v : ℕ) (is_signed : Bool)
    → v < 2 ^ 31
    → (text : List ℕ) × (ulltoa 11 v 10 is_signed ≡ some text) × (atoi text ≡ some (pos v))
unfolding ulltoa atoi
atoi-ulltoa_pos zero is_signed small = (b'0' ∷ [], refl, refl)
atoi-ulltoa_pos (suc v) is_signed small =
    let (ds, run, digits, number) = decimal_digits (suc v) small in
    (
      ds,
      ulltoa-positive 11 (suc v) is_signed ds (omega arith) (omega arith) run,
      atoi-digits ds digits (omega (arith, number)) ∙ ap (λ n. some (pos n)) number,
    )

atoi-ulltoa_minus :
    (v : ℕ)
    → v < 2 ^ 31
    → (text : List ℕ) × (ulltoa 11 ((2 ^ 64 - v) % 2 ^ 64) 10 true ≡ some text)
      × (atoi text ≡ some (pos 0 -ℤ pos v))
unfolding ◌-ℤ◌
atoi-ulltoa_minus zero small = atoi-ulltoa_pos 0 true small
atoi-ulltoa_minus (suc v) small =
    let (es, run, digits, number) = decimal_digits (suc v) small in
    let word : (2 ^ 64 - suc v) % 2 ^ 64 ≡ 2 ^ 64 - suc v = omega arith in
    (
      b'-' ∷ es,
      rw word (ulltoa-negative 11 (suc v) es (omega arith) (omega arith) run),
      atoi-minus es digits (omega (arith, number)) ∙ ap (λ n. some (pos 0 -ℤ pos n)) number,
    )

-- The text that `libio_ulltoa` writes in base 10 for a number v below 2 ^ 31, with or without a
-- sign, and with a sign for the word of 64 bits of -v, is read back as v and as -v by `atoi`, with
-- fuel for ten digits. The text of INT_MIN is not read back: its digits are none of `int`.
pub atoi-ulltoa :
    (v : ℕ) (is_signed : Bool)
    → v < 2 ^ 31
    → ((text : List ℕ) × (ulltoa 11 v 10 is_signed ≡ some text) × (atoi text ≡ some (pos v)))
      × ((text : List ℕ) × (ulltoa 11 ((2 ^ 64 - v) % 2 ^ 64) 10 true ≡ some text)
          × (atoi text ≡ some (pos 0 -ℤ pos v)))
      × ((text : List ℕ) × (ulltoa 11 (2 ^ 64 - 2 ^ 31) 10 true ≡ some text) × (atoi text ≡ none))
atoi-ulltoa v is_signed small = (
  atoi-ulltoa_pos v is_signed small,
  atoi-ulltoa_minus v small,
  (least_text, least-ulltoa, least-atoi),
)

-- Behind 0x only decimal digits are read, and the number is the decimal one.
pub atoi-hex :
    (ds : List ℕ)
    → all_digits 10 ds ≡ true
    → value 10 ds 0 < 2 ^ 31
    → atoi (b'0' ∷ b'x' ∷ ds) ≡ some (pos (value 10 ds 0))
unfolding atoi
atoi-hex ds digits small =
    ap (with_sign false) (atoi_loop_lem is_xdigit is_xdigit_lem ds 0 digits small)
