-- ===== src/Fdt/Address.antt =====
-- kernel/fdt.cxx, get_node_address: the address behind the at sign.
use kinnow_os.Prelude.{
  ℕ, zero, suc, ◌+◌, ◌*◌, ◌%◌, ◌^◌, ◌<◌, ◌≡◌, refl, ap, ◌∙◌, Bool, true, false, not, ◌&&◌, ◌||◌,
  some, List, [], ◌∷◌, ◌++◌, arith, ◌==◌,
}
use native.Mathlib.Nat.{mod-eq_of_lt}
use kinnow_os.Prelude.Table.{holds_from, holds_from_lem}
use kinnow_os.Locale.{is_xdigit, to_upper}
use kinnow_os.Libio.Number.{ulltoa_loop, ulltoa}
use kinnow_os.Libio.Number.Digits.{
  digit_value, value, is_digit_of, all_digits, value-grows, append-nil, ulltoa_loop_lem,
}
use kinnow_os.Fdt.{hex_digit, address_loop, get_node_address}

abbrev reads_digit : ℕ → Bool
reads_digit c =
    not (is_digit_of 16 c) || (is_xdigit (to_upper c) && hex_digit (to_upper c) == digit_value c)

digit_table : holds_from reads_digit 0 256 ≡ true
unfolding holds_from is_xdigit to_upper
digit_table = refl

digit_lem :
    (c : ℕ)
    → is_digit_of 16 c ≡ true
    → (is_xdigit (to_upper c) ≡ true) × (hex_digit (to_upper c) ≡ digit_value c)
digit_lem c h =
    let row =
      holds_from_lem reads_digit 0 256 digit_table {k = c} (omega arith) (ground (arith, h)) in
    (ground (arith, h, row), ground (arith, h, row))

address_loop_lem :
    (ds : List ℕ) (n : ℕ)
    → all_digits 16 ds ≡ true
    → value 16 ds n < 2 ^ 64
    → address_loop ds n ≡ value 16 ds n
unfolding address_loop
address_loop_lem [] n digits small = refl
address_loop_lem (c ∷ cs) n digits small =
    let (is, at) = digit_lem c (ground (arith, digits)) in
    let next = n * 16 + digit_value c in
    let fits : next % 2 ^ 64 ≡ next = mod-eq_of_lt (omega (arith, value-grows 15 cs next)) in
    rw (address_loop, is, at, fits) (address_loop_lem cs next (ground (arith, digits)) small)

abbrev pub has_no_at : List ℕ → Bool
has_no_at [] = true
has_no_at (c ∷ cs) = not (c == b'@') && has_no_at cs

get_node_address-at :
    (name text : List ℕ)
    → has_no_at name ≡ true
    → get_node_address (name ++ (b'@' ∷ text)) ≡ address_loop text 0
unfolding get_node_address
get_node_address-at [] text h = refl
get_node_address-at (c ∷ cs) text h = ground (arith, h, get_node_address-at cs text)

ulltoa-unsigned :
    (fuel v base : ℕ) (text : List ℕ)
    → 0 < v
    → ulltoa_loop fuel v base [] ≡ some text
    → ulltoa fuel v base false ≡ some text
unfolding ulltoa
ulltoa-unsigned fuel v base text some_digit run = ground (arith, run)

hex_text :
    (v : ℕ)
    → v < 2 ^ 64
    → (text : List ℕ) × (ulltoa 17 v 16 false ≡ some text) × (address_loop text 0 ≡ v)
unfolding ulltoa address_loop is_xdigit to_upper
hex_text zero small = (b'0' ∷ [], refl, refl)
hex_text (suc v) small =
    let (ds, run, digits, number, short) = ulltoa_loop_lem 16 16 (suc v) [] (omega arith) small in
    (
      ds,
      ulltoa-unsigned 17 (suc v) 16 ds (omega arith) (run ∙ ap some (append-nil ds)),
      address_loop_lem ds 0 digits (omega (arith, number)) ∙ number,
    )

-- A node whose name has, behind an at sign, the hexadecimal digits that `libio_ulltoa` writes for an
-- address below 2 ^ 64 has that address, if there is no at sign in front.
pub get_node_address-ulltoa :
    (name : List ℕ) (v : ℕ)
    → has_no_at name ≡ true
    → v < 2 ^ 64
    → (text : List ℕ) × (ulltoa 17 v 16 false ≡ some text)
      × (get_node_address (name ++ (b'@' ∷ text)) ≡ v)
get_node_address-ulltoa name v clean small =
    let (text, run, number) = hex_text v small in
    (text, run, get_node_address-at name text clean ∙ number)
