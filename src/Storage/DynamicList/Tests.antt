-- ===== src/Storage/DynamicList/Tests.antt =====
-- Instances of the theorems about lists at concrete inputs.
use kinnow_os.Prelude.{ℕ, ◌≡◌, refl, some, [], ◌∷◌, ◌++◌, arith}
use kinnow_os.Storage.DynamicList.{DynamicList, insert}
use kinnow_os.Storage.DynamicList.Contents.{Holds, backed, insert_lem}

abbrev numbers : ℕ → ℕ
numbers k = k

abbrev three : DynamicList ℕ
three = record { ptr = some numbers; size = 3; capacity = 16 }

abbrev full : DynamicList ℕ
full = record { ptr = some numbers; size = 16; capacity = 16 }

three-Holds : Holds three (0 ∷ 1 ∷ 2 ∷ [])
three-Holds = backed numbers refl (omega arith) refl

insert_lem_example :
    let (i, l') = insert (some numbers) three 7 in
    (i ≡ some 3) × Holds l' ((0 ∷ 1 ∷ 2 ∷ []) ++ (7 ∷ []))
insert_lem_example =
    insert_lem (some numbers) three (0 ∷ 1 ∷ 2 ∷ []) 7 numbers three-Holds refl (λ i lt. refl)
