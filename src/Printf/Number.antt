-- ===== src/Printf/Number.antt =====
-- kernel/printf.cxx: which digits of a number are written.
use kinnow_os.Prelude.{
  ℕ, zero, suc, ◌+◌, ◌-◌, ◌/◌, ◌%◌, ◌^◌, ◌<◌, ◌≤◌, ◌≡◌, refl, ap, sym, ◌∙◌, Bool, true, false, ◌&&◌,
  some, List, [], ◌∷◌, ◌++◌, arith, leb, ltb, ◌==◌, length, get_or, Option-cases, Bool-cases, inl,
  inr,
}
use native.Mathlib.Nat.{pow-zero}
use kinnow_os.Libio.Number.{digit_char, ulltoa_loop}
use kinnow_os.Libio.Number.Digits.{append_assoc, div_below}
use kinnow_os.Printf.{number_digits, number_chars, number_at, convert_number}

-- The elements in front of the text, the last one first.
abbrev pub reverse_onto : List ℕ → List ℕ → List ℕ
reverse_onto [] text = text
reverse_onto (d ∷ ds) text = reverse_onto ds (d ∷ text)

-- The first `n` elements, the last one first.
abbrev pub descend : List ℕ → ℕ → List ℕ
descend ds zero = []
descend ds (suc n) = get_or ds n 0 ∷ descend ds n

descend-cons : (d : ℕ) (ds : List ℕ) (n : ℕ) → descend (d ∷ ds) (suc n) ≡ descend ds n ++ (d ∷ [])
descend-cons d ds zero = refl
descend-cons d ds (suc n) = ap (λ xs. get_or ds n 0 ∷ xs) (descend-cons d ds n)

reverse_onto-append : (ds text : List ℕ) → reverse_onto ds text ≡ reverse_onto ds [] ++ text
reverse_onto-append [] text = refl
reverse_onto-append (d ∷ ds) text =
    reverse_onto-append ds (d ∷ text)
    ∙ (sym (append_assoc (reverse_onto ds []) d text)
        ∙ ap (λ xs. xs ++ text) (sym (reverse_onto-append ds (d ∷ []))))

descend-length : (ds : List ℕ) → descend ds (length ds) ≡ reverse_onto ds []
descend-length [] = refl
descend-length (d ∷ ds) =
    descend-cons d ds (length ds)
    ∙ (ap (λ xs. xs ++ (d ∷ [])) (descend-length ds) ∙ sym (reverse_onto-append ds (d ∷ [])))

ulltoa_loop-number_digits :
    (fuel val base : ℕ) (text ds : List ℕ)
    → number_digits fuel val base ≡ some ds
    → ulltoa_loop fuel val base text ≡ some (reverse_onto ds text)
unfolding ulltoa_loop number_digits
ulltoa_loop-number_digits zero val base text ds e = absurd cc
ulltoa_loop-number_digits (suc fuel) val base text ds e =
    let c = digit_char (val % base) in
    elim (Bool-cases (val == 0)) [
      | inl nought ↦
          let at : [] ≡ ds = ground (arith, nought, e) in
          rw (ulltoa_loop, nought) (ap (λ xs. some (reverse_onto xs text)) at)
      | inr more ↦ elim (Option-cases (number_digits fuel (val / base) base)) [
        | inl out ↦ absurd (ground (arith, more, out, e))
        | inr (es, run) ↦
            let at : c ∷ es ≡ ds = ground (arith, more, run, e) in
            rw (ulltoa_loop, more)
              (ulltoa_loop-number_digits fuel (val / base) base (c ∷ text) es run
                ∙ ap (λ xs. some (reverse_onto xs text)) at)
      ]
    ]

-- The characters behind the first are those of the elements but the first, the last one first.
get_or-default : (xs : List ℕ) (i a b : ℕ) → i < length xs → get_or xs i a ≡ get_or xs i b
get_or-default [] i a b h = absurd (omega arith)
get_or-default (x ∷ xs) zero a b h = refl
get_or-default (x ∷ xs) (suc i) a b h = get_or-default xs i a b (omega arith)

number_chars_lem :
    (junk : ℕ → ℕ) (d : ℕ) (ds : List ℕ) (maxlen k left l : ℕ)
    → k + left ≡ length ds + 1
    → left ≤ length ds
    → l + left ≤ maxlen
    → number_chars junk (d ∷ ds) maxlen k left l ≡ descend ds left
unfolding number_chars
number_chars_lem junk d ds maxlen k zero l count inside room = refl
number_chars_lem junk d ds maxlen k (suc left) l count inside room =
    let i : suc (length ds) - k ≡ suc left = omega arith in
    let fits : ltb l maxlen ≡ true = ground arith in
    let next : get_or ds left (junk (suc left)) ≡ get_or ds left 0 =
      get_or-default ds left _ 0 (omega arith) in
    let rest =
      number_chars_lem junk d ds maxlen (k + 1) left (l + 1) (omega arith) (omega arith)
        (omega arith) in
    rw (number_chars, i, fits, next, rest) refl

number_digits-total :
    (fuel val base : ℕ)
    → 2 ≤ base
    → val < base ^ fuel
    → (ds : List ℕ) × (number_digits (suc fuel) val base ≡ some ds) × (length ds ≤ fuel)
unfolding number_digits
number_digits-total fuel zero base two h = ([], refl, omega arith)
number_digits-total zero (suc v) base two h = absurd (omega (arith, pow-zero base))
number_digits-total (suc fuel) (suc v) base two h =
    let full : (suc v == 0) ≡ false = ground arith in
    let (ds, run, short) =
      number_digits-total fuel (suc v / base) base two (div_below base (suc v) fuel two h) in
    (digit_char (suc v % base) ∷ ds, rw (number_digits, full, run) refl, omega arith)

get_or-end : (xs : List ℕ) (d : ℕ) → get_or xs (length xs) d ≡ d
get_or-end [] d = refl
get_or-end (x ∷ xs) d = get_or-end xs d

-- The loop over a full array: what stands behind the digits, and the digits but the first.
number_chars-full :
    (junk : ℕ → ℕ) (d : ℕ) (ds : List ℕ) (maxlen : ℕ)
    → length ds < maxlen
    → number_chars junk (d ∷ ds) maxlen 0 (suc (length ds)) 0
      ≡ junk (suc (length ds)) ∷ reverse_onto ds []
unfolding number_chars
number_chars-full junk d ds maxlen room =
    let i : suc (length ds) - 0 ≡ suc (length ds) = omega arith in
    let fits : ltb 0 maxlen ≡ true = ground arith in
    let rest =
      number_chars_lem junk d ds maxlen (0 + 1) (length ds) (0 + 1) (omega arith) (omega arith)
        (omega arith) in
    rw (number_chars, i, fits, get_or-end ds (junk (suc (length ds))), rest)
      (ap (λ xs. junk (suc (length ds)) ∷ xs) (descend-length ds))

-- With room for its digits and fuel for one more, the text of a positive number below 2 ^ 63 is
-- whatever stands behind the digits in `numbuf`, and then the digits of the number divided by the base:
-- the last digit is lost.
pub convert_number_lem :
    (fuel : ℕ) (junk : ℕ → ℕ) (val base maxlen : ℕ) (is_signed : Bool)
    → 2 ≤ base
    → 0 < val
    → val < 2 ^ 63
    → val < base ^ suc fuel
    → fuel < maxlen
    → (text : List ℕ) × (ulltoa_loop (suc fuel) (val / base) base [] ≡ some text)
      × ((j : ℕ) × (convert_number (suc (suc fuel)) junk val base is_signed maxlen
            ≡ some (junk j ∷ text)))
unfolding convert_number
convert_number_lem fuel junk val base maxlen is_signed two positive small h room =
    let (ds, run, short) =
      number_digits-total fuel (val / base) base two (div_below base val fuel two h) in
    let c = digit_char (val % base) in
    let full : (val == 0) ≡ false = ground arith in
    let unsigned : (is_signed && leb (2 ^ 63) val) ≡ false = ground arith in
    let digits : number_digits (suc (suc fuel)) val base ≡ some (c ∷ ds) =
      rw (number_digits, full, run) refl in
    let chars = number_chars-full junk c ds maxlen (omega arith) in
    let at : number_at (suc (suc fuel)) junk val base maxlen 0
        ≡ some (junk (suc (length ds)) ∷ reverse_onto ds []) =
      rw (number_at, digits, chars) refl in
    (
      reverse_onto ds [],
      ulltoa_loop-number_digits (suc fuel) (val / base) base [] ds run,
      (suc (length ds), rw (convert_number, full, unsigned, at) refl),
    )
