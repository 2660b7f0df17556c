-- ===== src/Locale.antt =====
-- kernel/locale.hxx: character classes and conversions, on the characters of ASCII, which is the
-- native character set of a machine where 'A' is 65.
pub mod Tables
pub mod Classes
pub mod Convert
mod Tests
use kinnow_os.Prelude.{
  ℕ, zero, suc, ◌+◌, ◌*◌, ◌%◌, ◌^◌, Bool, true, false, ◌||◌, ◌&&◌, Option, none, some, List, [],
  ◌∷◌, ◌==◌, ltb, if◌then◌else◌, get_elem?,
}
use kinnow_os.Locale.Tables.{asc2ebc, ebc2asc}

-- Is `x` one of the characters?
abbrev pub one_of : ℕ → List ℕ → Bool
one_of x [] = false
one_of x (c ∷ cs) = x == c || one_of x cs

unfoldable pub is_lower : ℕ → Bool
is_lower x = one_of x (
    b'a' ∷ b'b' ∷ b'c' ∷ b'd' ∷ b'e' ∷ b'f' ∷ b'g' ∷ b'h' ∷ b'i' ∷ b'j' ∷ b'k' ∷ b'l' ∷ b'm' ∷ b'n'
    ∷ b'o' ∷ b'p' ∷ b'q' ∷ b'r' ∷ b's' ∷ b't' ∷ b'u' ∷ b'v' ∷ b'w' ∷ b'x' ∷ b'y' ∷ b'z' ∷ [])

unfoldable pub is_upper : ℕ → Bool
is_upper x = one_of x (
    b'A' ∷ b'B' ∷ b'C' ∷ b'D' ∷ b'E' ∷ b'F' ∷ b'G' ∷ b'H' ∷ b'I' ∷ b'J' ∷ b'K' ∷ b'L' ∷ b'M' ∷ b'N'
    ∷ b'O' ∷ b'P' ∷ b'Q' ∷ b'R' ∷ b'S' ∷ b'T' ∷ b'U' ∷ b'V' ∷ b'W' ∷ b'X' ∷ b'Y' ∷ b'Z' ∷ [])

unfoldable pub is_digit : ℕ → Bool
is_digit x = one_of x (b'0' ∷ b'1' ∷ b'2' ∷ b'3' ∷ b'4' ∷ b'5' ∷ b'6' ∷ b'7' ∷ b'8' ∷ b'9' ∷ [])

unfoldable pub is_alpha : ℕ → Bool
unfolding is_lower is_upper
is_alpha x = is_lower x || is_upper x

unfoldable pub is_alnum : ℕ → Bool
unfolding is_alpha is_digit
is_alnum x = is_alpha x || is_digit x

-- The first of the pairs that begins with `x` gives the result, and else `x` itself.
abbrev pub translate : List (ℕ × ℕ) → ℕ → ℕ
translate [] x = x
translate ((from, to) ∷ ps) x = if x == from then to else translate ps x

unfoldable pub to_upper : ℕ → ℕ
to_upper = translate (
    (b'a', b'A')
    ∷ (b'g', b'G')
    ∷ (b'm', b'M')
    ∷ (b's', b'S')
    ∷ (b'b', b'B')
    ∷ (b'h', b'H')
    ∷ (b'n', b'N')
    ∷ (b't', b'T')
    ∷ (b'c', b'C')
    ∷ (b'i', b'I')
    ∷ (b'o', b'O')
    ∷ (b'u', b'U')
    ∷ (b'd', b'D')
    ∷ (b'j', b'J')
    ∷ (b'p', b'P')
    ∷ (b'v', b'V')
    ∷ (b'e', b'E')
    ∷ (b'k', b'K')
    ∷ (b'q', b'Q')
    ∷ (b'w', b'W')
    ∷ (b'f', b'F')
    ∷ (b'l', b'L')
    ∷ (b'r', b'R')
    ∷ (b'x', b'X')
    ∷ (b'y', b'Y')
    ∷ (b'z', b'Z')
    ∷ [])

unfoldable pub to_lower : ℕ → ℕ
to_lower = translate (
    (b'A', b'a')
    ∷ (b'G', b'g')
    ∷ (b'M', b'm')
    ∷ (b'S', b's')
    ∷ (b'B', b'b')
    ∷ (b'H', b'h')
    ∷ (b'N', b'n')
    ∷ (b'T', b't')
    ∷ (b'C', b'c')
    ∷ (b'I', b'i')
    ∷ (b'O', b'o')
    ∷ (b'U', b'u')
    ∷ (b'D', b'd')
    ∷ (b'J', b'j')
    ∷ (b'P', b'p')
    ∷ (b'V', b'v')
    ∷ (b'E', b'e')
    ∷ (b'K', b'k')
    ∷ (b'Q', b'q')
    ∷ (b'W', b'w')
    ∷ (b'F', b'f')
    ∷ (b'L', b'l')
    ∷ (b'R', b'r')
    ∷ (b'X', b'x')
    ∷ (b'Y', b'y')
    ∷ (b'Z', b'z')
    ∷ [])

unfoldable pub is_space : ℕ → Bool
is_space x = one_of x (32 ∷ 9 ∷ 11 ∷ 13 ∷ 10 ∷ 12 ∷ [])

unfoldable pub is_punct : ℕ → Bool
is_punct x = one_of x (b'.' ∷ b',' ∷ b';' ∷ b':' ∷ [])

unfoldable pub is_xdigit : ℕ → Bool
unfolding is_digit to_upper
is_xdigit x =
    let u = to_upper x in is_digit u || one_of u (b'A' ∷ b'B' ∷ b'C' ∷ b'D' ∷ b'E' ∷ b'F' ∷ [])

pub data Charset : Type 0 where
  native ebcdic_1047 ascii utf8 : Charset

-- `none` where the code has no value: behind the end of a table, and between sets of which it has no
-- table.
unfoldable pub convert : Charset → Charset → ℕ → Option ℕ
convert native native ch = some ch
convert native ascii ch = some ch
convert ascii native ch = some ch
convert ascii ascii ch = some ch
convert ebcdic_1047 ebcdic_1047 ch = some ch
convert utf8 utf8 ch = some ch
convert native ebcdic_1047 ch = get_elem? asc2ebc (ch % 256)
convert ascii ebcdic_1047 ch = get_elem? asc2ebc (ch % 256)
convert ebcdic_1047 native ch = get_elem? ebc2asc (ch % 256)
convert ebcdic_1047 ascii ch = get_elem? ebc2asc (ch % 256)
convert native utf8 ch = none
convert ascii utf8 ch = none
convert ebcdic_1047 utf8 ch = none
convert utf8 native ch = none
convert utf8 ascii ch = none
convert utf8 ebcdic_1047 ch = none

-- `convert` of a text, character by character; the text is the list of its characters.
unfoldable pub convert_text : Charset → Charset → List ℕ → Option (List ℕ)
unfolding convert
convert_text src dst [] = some []
convert_text src dst (c ∷ cs) = elim (convert src dst c) [
  | none ↦ none
  | some d ↦ elim (convert_text src dst cs) [ none ↦ none | some ds ↦ some (d ∷ ds) ]
]
