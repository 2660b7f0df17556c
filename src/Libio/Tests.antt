-- ===== src/Libio/Tests.antt =====
-- Instances of the theorems about the library of the user programs at concrete inputs.
use kinnow_os.Prelude.{◌%◌, ℕ, ◌-◌, ◌^◌, ◌≡◌, refl, true, none, some, List, [], ◌∷◌, arith, get_or}
use kinnow_os.Prelude.Int.{pos, ◌-ℤ◌}
use kinnow_os.Storage.Memory.{Memory}
use kinnow_os.Storage.Text.{IsText}
use kinnow_os.Libio.Number.{ulltoa, atoi}
use kinnow_os.Libio.Number.RoundTrip.{atoi-ulltoa}
use kinnow_os.Libio.Environ.{getenv, setenv, assigned}
use kinnow_os.Libio.Environ.Lookup.{or_else, getenv-setenv}
use kinnow_os.Libio.Strings.{strcspn, strpbrk}
use kinnow_os.Libio.Strings.Search.{found_count, strcspn-strpbrk}

-- "AB" and "BA" at 0 and 3.
abbrev texts : Memory
texts a = get_or (b'A' ∷ b'B' ∷ 0 ∷ b'B' ∷ b'A' ∷ 0 ∷ []) a 0

ab-IsText : IsText texts 0 2
ab-IsText = record { ends = refl; goes_on = λ i h. grind arith }

ba-IsText : IsText texts 3 2
ba-IsText = record { ends = refl; goes_on = λ i h. grind arith }

atoi-ulltoa_example :
    ((text : List ℕ) × (ulltoa 11 2147483647 10 true ≡ some text)
      × (atoi text ≡ some (pos 2147483647)))
    × ((text : List ℕ) × (ulltoa 11 ((2 ^ 64 - 2147483647) % 2 ^ 64) 10 true ≡ some text)
        × (atoi text ≡ some (pos 0 -ℤ pos 2147483647)))
    × ((text : List ℕ) × (ulltoa 11 (2 ^ 64 - 2 ^ 31) 10 true ≡ some text) × (atoi text ≡ none))
atoi-ulltoa_example = atoi-ulltoa 2147483647 true (omega arith)

strcspn-strpbrk_example : strcspn 4 texts 0 3 ≡ found_count (strpbrk 4 texts 0 3)
strcspn-strpbrk_example = strcspn-strpbrk texts 4 0 3

getenv-setenv_example :
    (environ' : List (List ℕ)) × (setenv true true
        (b'H' ∷ [])
        (b'/' ∷ [])
        true
        ((b'A' ∷ b'=' ∷ []) ∷ [])
      ≡ assigned environ')
    × (getenv (b'H' ∷ []) environ'
        ≡ some (or_else (getenv (b'H' ∷ []) ((b'A' ∷ b'=' ∷ []) ∷ [])) (b'/' ∷ [])))
getenv-setenv_example = getenv-setenv (b'H' ∷ []) (b'/' ∷ []) ((b'A' ∷ b'=' ∷ []) ∷ []) refl
