-- ===== src/Disk/Nodes/Names.antt =====
-- kernel/vdisk.cxx, node::create: the name of a new node and the array that holds it.
use kinnow_os.Prelude.{
  ℕ, zero, suc, ◌<◌, ◌≤◌, ◌≡◌, ◌↔◌, refl, List, [], ◌∷◌, arith, ap, length, take, length-append,
}
use kinnow_os.Disk.Nodes.{stored_name, name_size}

length-take : (n : ℕ) (xs : List ℕ) → n ≤ length xs → length (take n xs) ≡ n
length-take zero xs h = refl
length-take (suc n) [] h = absurd (omega arith)
length-take (suc n) (x ∷ xs) h = omega (arith, length-take n xs (omega arith))

pub take_all : (xs : List ℕ) → take (length xs) xs ≡ xs
take_all [] = refl
take_all (x ∷ xs) = ap (λ ys. x ∷ ys) (take_all xs)

-- The bytes that `create` writes for the name stay inside the array of 24 bytes exactly if the name
-- has fewer than 24 characters.
pub length-stored_name :
    (name : List ℕ) → (length (stored_name name) ≤ name_size) ↔ (length name < name_size)
unfolding stored_name
length-stored_name name =
    let all = (ap length (take_all name)) in
    ground (
      arith,
      length-append (take name_size name) (0 ∷ []),
      length-append (take (length name) name) (0 ∷ []),
      all,
      length-take name_size name,
    )
