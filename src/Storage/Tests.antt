-- ===== src/Storage/Tests.antt =====
-- Instances of the theorems about the memory and text primitives at concrete inputs.
use kinnow_os.Prelude.{◌%◌, ◌^◌, ◌≡◌, refl, ◌↔◌, arith, get_or, [], ◌∷◌}
use kinnow_os.Prelude.Int.{pos, ◌+ℤ◌}
use kinnow_os.Storage.Memory
use kinnow_os.Storage.Memory.{Memory}
use kinnow_os.Storage.Memory.Compare.{total, compare_iff}
use kinnow_os.Storage.Text.{IsText}

-- "AB", "BA" and "/." at 0, 3 and 6.
abbrev texts : Memory
texts a = get_or (65 ∷ 66 ∷ 0 ∷ 66 ∷ 65 ∷ 0 ∷ 47 ∷ 46 ∷ []) a 0

ab-IsText : IsText texts 0 2
ab-IsText = record { ends = refl; goes_on = λ i h. grind arith }

ba-IsText : IsText texts 3 2
ba-IsText = record { ends = refl; goes_on = λ i h. grind arith }

marks-IsText : IsText texts 6 2
marks-IsText = record { ends = refl; goes_on = λ i h. grind arith }

-- Two names of the same letters in another order are not told apart.
compare_iff_example :
    (Memory.compare texts 0 3 2 ≡ pos 0) ↔ (total texts 0 2 % 2 ^ 32 ≡ total texts 3 2 % 2 ^ 32)
compare_iff_example = compare_iff texts 0 3 2

anagrams : Memory.compare texts 0 3 2 ≡ pos 0
unfolding Memory.compare Memory.wrap_int ◌+ℤ◌
anagrams = refl
