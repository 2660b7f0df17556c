-- ===== src/Libio/Ctype.antt =====
-- sys/libio/ctype.cxx, whose classes other than `isxdigit` test the same characters as those of
-- kernel/locale.hxx.
use kinnow_os.Prelude.{ℕ, ◌≡◌, ◌<◌, refl, Bool, true, ◌||◌, ◌∷◌, [], arith}
use kinnow_os.Prelude.Table.{holds_from, holds_from_lem, beq, beq_lem}
use kinnow_os.Locale
use kinnow_os.Locale.{one_of}

unfoldable pub is_digit : ℕ → Bool
unfolding Locale.is_digit
is_digit x = Locale.is_digit x

unfoldable pub to_lower : ℕ → ℕ
unfolding Locale.to_lower
to_lower x = Locale.to_lower x

unfoldable pub is_xdigit : ℕ → Bool
unfolding is_digit to_lower
is_xdigit x =
    let l = to_lower x in is_digit l || one_of l (b'A' ∷ b'B' ∷ b'C' ∷ b'D' ∷ b'E' ∷ b'F' ∷ [])

xdigit_table : holds_from (λ x. beq (is_xdigit x) (is_digit x)) 0 256 ≡ true
unfolding holds_from is_xdigit
xdigit_table = refl

-- On the characters of a byte, a hexadecimal digit is a decimal one: no letter is.
pub is_xdigit_lem : (x : ℕ) → x < 256 → is_xdigit x ≡ is_digit x
is_xdigit_lem x small =
    beq_lem _ _
      (holds_from_lem (λ y. beq (is_xdigit y) (is_digit y)) 0 256 xdigit_table (omega arith) small)
