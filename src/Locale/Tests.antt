-- ===== src/Locale/Tests.antt =====
-- Instances of the theorems about characters at concrete inputs.
use kinnow_os.Prelude.{ℕ, ◌≡◌, refl, some, List, [], ◌∷◌}
use kinnow_os.Locale.{ascii, ebcdic_1047, convert_text}
use kinnow_os.Locale.Convert.{convert_text-convert_text}

convert_text-convert_text_example :
    (out : List ℕ) × (convert_text ascii ebcdic_1047 (b'O' ∷ b'S' ∷ []) ≡ some out)
    × (convert_text ebcdic_1047 ascii out ≡ some (b'O' ∷ b'S' ∷ []))
convert_text-convert_text_example = convert_text-convert_text (b'O' ∷ b'S' ∷ []) refl
