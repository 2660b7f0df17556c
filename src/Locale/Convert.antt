-- ===== src/Locale/Convert.antt =====
-- kernel/locale.hxx and kernel/locale.cxx: a conversion and the conversion back.
use kinnow_os.Prelude.{
  ℕ, ◌≡◌, refl, Bool, true, false, not, ◌&&◌, ◌||◌, Option, none, some, List, [], ◌∷◌, arith, ◌==◌,
  ltb, Option-cases, inl, inr,
}
use kinnow_os.Prelude.Table.{holds_from, holds_from_lem, beq}
use kinnow_os.Locale.{ascii, ebcdic_1047, convert, convert_text}

-- The characters that survive a conversion to EBCDIC: those of ASCII without the slash and without the control
-- characters 4 to 10.
abbrev pub survives : ℕ → Bool
survives c = ltb c 128 && (not (c == b'/') && (ltb c 4 || ltb 10 c))

-- A conversion and the next.
abbrev there_back : ℕ → Option ℕ
there_back c = elim (convert ascii ebcdic_1047 c) [
  | none ↦ none
  | some e ↦ convert ebcdic_1047 ascii e
]

abbrev is_some_of : Option ℕ → ℕ → Bool
is_some_of none c = false
is_some_of (some d) c = c == d

is_some_of_lem : (o : Option ℕ) (c : ℕ) → is_some_of o c ≡ true → o ≡ some c
is_some_of_lem none c h = absurd cc
is_some_of_lem (some d) c h = ground (arith, h)

convert_table : holds_from (λ c. beq (is_some_of (there_back c) c) (survives c)) 0 128 ≡ true
unfolding holds_from convert
convert_table = refl

pub there_back_lem :
    (c : ℕ)
    → survives c ≡ true
    → (e : ℕ) × (convert ascii ebcdic_1047 c ≡ some e) × (convert ebcdic_1047 ascii e ≡ some c)
there_back_lem c ok =
    let row =
      holds_from_lem (λ d. beq (is_some_of (there_back d) d) (survives d)) 0 128 convert_table
        {k = c} (omega arith) (ground (arith, ok)) in
    elim (Option-cases (convert ascii ebcdic_1047 c)) [
      | inl e ↦ absurd (ground (arith, ok, row, e))
      | inr (d, e) ↦
          (d, e, is_some_of_lem (convert ebcdic_1047 ascii d) c (ground (arith, ok, row, e)))
    ]

abbrev pub all_survive : List ℕ → Bool
all_survive [] = true
all_survive (c ∷ cs) = survives c && all_survive cs

-- A text of characters that survive is converted to EBCDIC, and the conversion back gives the text.
pub convert_text-convert_text :
    (text : List ℕ)
    → all_survive text ≡ true
    → (out : List ℕ) × (convert_text ascii ebcdic_1047 text ≡ some out)
      × (convert_text ebcdic_1047 ascii out ≡ some text)
unfolding convert_text
convert_text-convert_text [] ok = ([], refl, refl)
convert_text-convert_text (c ∷ cs) ok =
    let (e, there, back) = there_back_lem c (ground (arith, ok)) in
    let (es, all_there, all_back) = convert_text-convert_text cs (ground (arith, ok)) in
    (e ∷ es, rw (convert_text, there, all_there) refl, rw (convert_text, back, all_back) refl)
