-- ===== src/Libio/Number.antt =====
-- sys/libio/stdlib.cxx: numbers and their texts. A text is the list of its characters without the
-- end byte.
pub mod Digits
pub mod RoundTrip
use kinnow_os.Prelude.{
  ℕ, zero, suc, ◌+◌, ◌-◌, ◌*◌, ◌/◌, ◌%◌, ◌^◌, Bool, true, false, ◌&&◌, ◌||◌, Option, none, some,
  List, [], ◌∷◌, leb, ltb, ◌==◌, if◌then◌else◌,
}
use kinnow_os.Prelude.Int.{ℤ, pos, ◌-ℤ◌}
use kinnow_os.Libio.Ctype.{is_digit, is_xdigit}

abbrev pub digit_char : ℕ → ℕ
digit_char rem = if leb 10 rem then rem - 10 + b'A' else rem + b'0'

-- The loop of `libio_ulltoa`, on fuel, `none` where that runs out. The digits stand in the order of
-- the text, in which the code copies them from the end of `numbuf`.
unfoldable pub ulltoa_loop : ℕ → ℕ → ℕ → List ℕ → Option (List ℕ)
ulltoa_loop zero val base text = none
ulltoa_loop (suc fuel) val base text =
    let rest = ulltoa_loop fuel (val / base) base (digit_char (val % base) ∷ text) in
    if val == 0 then some text else rest

-- `libio_ulltoa` of a word of 64 bits; the sign is that of the word.
unfoldable pub ulltoa : ℕ → ℕ → ℕ → Bool → Option (List ℕ)
unfolding ulltoa_loop
ulltoa fuel val base is_signed =
    if val == 0
    then some (b'0' ∷ [])
    else if is_signed && leb (2 ^ 63) val
    then elim (ulltoa_loop fuel (2 ^ 64 - val) base []) [
      | none ↦ none
      | some text ↦ some (b'-' ∷ text)
    ]
    else ulltoa_loop fuel val base []

-- The loops of `atoi` over the characters of a class, for base 10 and for base 16: both take
-- the number times 10. `none` where the number is none of `int`.
pub atoi_loop : (ℕ → Bool) → List ℕ → ℕ → Option ℕ
atoi_loop hit [] num = some num
atoi_loop hit (c ∷ cs) num =
    let next = num * 10 + (c - b'0') in
    let rest = atoi_loop hit cs next in
    if hit c then if ltb next (2 ^ 31) then rest else none else some num

-- `strspn(s, " \t")`
pub skip_blanks : List ℕ → List ℕ
skip_blanks [] = []
skip_blanks (c ∷ cs) = if c == b' ' || c == 9 then skip_blanks cs else c ∷ cs

-- The number behind the sign.
pub atoi_unsigned : List ℕ → Option ℕ
unfolding atoi_loop is_digit is_xdigit
atoi_unsigned [] = some 0
atoi_unsigned (c ∷ []) = if c == b'0' then some 0 else atoi_loop is_digit (c ∷ []) 0
atoi_unsigned (c ∷ d ∷ cs) =
    if c == b'0'
    then if d == b'x' then atoi_loop is_xdigit cs 0 else atoi_loop is_digit (d ∷ cs) 0
    else atoi_loop is_digit (c ∷ d ∷ cs) 0

abbrev pub with_sign : Bool → Option ℕ → Option ℤ
with_sign is_neg none = none
with_sign is_neg (some n) = some (if is_neg then pos 0 -ℤ pos n else pos n)

pub atoi_signed : List ℕ → Option ℤ
unfolding atoi_unsigned
atoi_signed [] = some (pos 0)
atoi_signed (c ∷ cs) =
    if c == b'-'
    then with_sign true (atoi_unsigned cs)
    else with_sign false (atoi_unsigned (c ∷ cs))

unfoldable pub atoi : List ℕ → Option ℤ
unfolding skip_blanks atoi_signed
atoi s = atoi_signed (skip_blanks s)
