-- ===== src/Locale/Classes.antt =====
-- kernel/locale.hxx: the classes of characters as ranges, and the change of case.
use kinnow_os.Prelude.{
  ℕ, ◌+◌, ◌-◌, ◌<◌, ◌≡◌, refl, Bool, true, ◌&&◌, ◌||◌, arith, ◌==◌, leb, if◌then◌else◌,
}
use kinnow_os.Prelude.Table.{holds_from, holds_from_lem, beq, beq_lem}
use kinnow_os.Locale.{is_lower, is_upper, is_alnum, is_xdigit, to_upper, to_lower}

abbrev pub in_range : ℕ → ℕ → ℕ → Bool
in_range first last x = leb first x && leb x last

-- Letters and digits, as ranges of ASCII.
abbrev pub is_alnum_range : ℕ → Bool
is_alnum_range x = in_range b'a' b'z' x || (in_range b'A' b'Z' x || in_range b'0' b'9' x)

abbrev pub is_xdigit_range : ℕ → Bool
is_xdigit_range x = in_range b'0' b'9' x || (in_range b'A' b'F' x || in_range b'a' b'f' x)

class_table :
    holds_from
      (λ x.
        beq (is_lower x) (in_range b'a' b'z' x)
        && (beq (is_upper x) (in_range b'A' b'Z' x)
            && (beq (is_alnum x) (is_alnum_range x) && beq (is_xdigit x) (is_xdigit_range x))))
      0
      256
    ≡ true
unfolding holds_from is_lower is_upper is_alnum is_xdigit
class_table = refl

and_left : (a b : Bool) → (a && b) ≡ true → a ≡ true
and_left a b h = ground arith

and_right : (a b : Bool) → (a && b) ≡ true → b ≡ true
and_right a b h = ground arith

-- On the characters of a byte, letters and digits are the three ranges of ASCII, and hexadecimal
-- digits are the decimal ones with the letters up to F of either case.
pub is_alnum-is_xdigit :
    (x : ℕ) → x < 256 → (is_alnum x ≡ is_alnum_range x) × (is_xdigit x ≡ is_xdigit_range x)
is_alnum-is_xdigit x small =
    let row =
      holds_from_lem
        (λ y.
          beq (is_lower y) (in_range b'a' b'z' y)
          && (beq (is_upper y) (in_range b'A' b'Z' y)
              && (beq (is_alnum y) (is_alnum_range y) && beq (is_xdigit y) (is_xdigit_range y))))
        0 256 class_table {k = x} (omega arith) small in
    let rest = and_right _ _ (and_right _ _ row) in
    (beq_lem _ _ (and_left _ _ rest), beq_lem _ _ (and_right _ _ rest))

case_table :
    holds_from
      (λ x.
        to_upper x == (if in_range b'a' b'z' x then x - 32 else x)
        && to_lower x == (if in_range b'A' b'Z' x then x + 32 else x))
      0
      256
    ≡ true
unfolding holds_from to_upper to_lower
case_table = refl

upper_lower :
    (x : ℕ)
    → x < 256
    → (to_upper x ≡ (if in_range b'a' b'z' x then x - 32 else x))
      × (to_lower x ≡ (if in_range b'A' b'Z' x then x + 32 else x))
upper_lower x small =
    let row =
      holds_from_lem
        (λ y.
          to_upper y == (if in_range b'a' b'z' y then y - 32 else y)
          && to_lower y == (if in_range b'A' b'Z' y then y + 32 else y))
        0 256 case_table {k = x} (omega arith) small in
    (ground (arith, row), ground (arith, row))

-- On the characters of a byte, a change to upper case and back gives the lower case, and a change
-- to lower case and back the upper case.
pub to_lower-to_upper :
    (x : ℕ) → x < 256 → (to_lower (to_upper x) ≡ to_lower x) × (to_upper (to_lower x) ≡ to_upper x)
to_lower-to_upper x small =
    ground (arith, upper_lower x, upper_lower (to_upper x), upper_lower (to_lower x))
