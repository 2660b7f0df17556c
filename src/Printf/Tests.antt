-- ===== src/Printf/Tests.antt =====
-- Instances of the theorems about formatted printing at concrete inputs.
use kinnow_os.Prelude.{ℕ, ◌/◌, ◌≡◌, true, some, List, [], ◌∷◌, arith}
use kinnow_os.Libio.Number.{ulltoa_loop}
use kinnow_os.Printf.{convert_number}
use kinnow_os.Printf.Number.{convert_number_lem}

-- The digits of 42, in a zeroed array.
convert_number_lem_example :
    (text : List ℕ) × (ulltoa_loop 3 (42 / 10) 10 [] ≡ some text)
    × ((j : ℕ) × (convert_number 4 (λ i. 0) 42 10 true 80 ≡ some (0 ∷ text)))
convert_number_lem_example =
    convert_number_lem 2 (λ i. 0) 42 10 80 true (omega arith) (omega arith) (omega arith)
      (omega arith) (omega arith)
