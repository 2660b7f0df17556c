-- ===== src/Printf.antt =====
-- kernel/printf.cxx: the conversion of a number in vsnprintf. A text is the list of its characters
-- without the end byte; `junk` is what the array `numbuf` holds before.
pub mod Number
pub mod Format
pub mod Console
mod Tests
use kinnow_os.Prelude.{
  ℕ, zero, suc, ◌+◌, ◌-◌, ◌/◌, ◌%◌, ◌^◌, Bool, true, false, ◌&&◌, Option, none, some, List, [], ◌∷◌,
  leb, ltb, ◌==◌, if◌then◌else◌, length, get_or,
}
use kinnow_os.Libio.Number.{digit_char}

-- The loop that fills `numbuf`, with the last digit first; on fuel, `none` where that runs out.
unfoldable pub number_digits : ℕ → ℕ → ℕ → Option (List ℕ)
number_digits zero val base = none
number_digits (suc fuel) val base =
    let rest = number_digits fuel (val / base) base in
    if val == 0
    then some []
    else elim rest [ none ↦ none | some ds ↦ some (digit_char (val % base) ∷ ds) ]

-- The loop that writes `numbuf[j - k]` for `k` from 0 on, `left` times, from the place `l`.
unfoldable pub number_chars : (ℕ → ℕ) → List ℕ → ℕ → ℕ → ℕ → ℕ → List ℕ
number_chars junk numbuf maxlen k zero l = []
number_chars junk numbuf maxlen k (suc left) l =
    let i = length numbuf - k in
    let rest = number_chars junk numbuf maxlen (k + 1) left (l + 1) in
    if ltb l maxlen then get_or numbuf i (junk i) ∷ rest else []

-- The characters of a positive number from the place `l` on.
pub number_at : ℕ → (ℕ → ℕ) → ℕ → ℕ → ℕ → ℕ → Option (List ℕ)
unfolding number_digits number_chars
number_at fuel junk val base maxlen l = elim (number_digits fuel val base) [
  | none ↦ none
  | some ds ↦ some (number_chars junk ds maxlen 0 (length ds) l)
]

-- The conversion: 0, a sign and the number without it, or the number.
pub convert_number : ℕ → (ℕ → ℕ) → ℕ → ℕ → Bool → ℕ → Option (List ℕ)
unfolding number_at
convert_number fuel junk val base is_signed maxlen =
    if val == 0
    then some (b'0' ∷ [])
    else if is_signed && leb (2 ^ 63) val
    then elim (number_at fuel junk (2 ^ 64 - val) base maxlen 1) [
      | none ↦ none
      | some text ↦ some (b'-' ∷ text)
    ]
    else number_at fuel junk val base maxlen 0
