-- ===== src/Fdt/Format.antt =====
-- The format of a device tree, as bytes: what kernel/fdt.cxx reads. Words are big-endian; the data of
-- a property and the name of a node, which has an end byte, are filled up to words.
pub mod Reads
pub mod Parse
use kinnow_os.Prelude.{
  ℕ, zero, suc, ◌+◌, ◌-◌, ◌/◌, ◌%◌, ◌^◌, ◌<◌, ◌≡◌, ◌≢◌, Option, none, some, List, [], ◌∷◌, ◌++◌,
  length, replicate, ◌==◌, if◌then◌else◌,
}
use kinnow_os.Storage.Memory.{Memory}
use kinnow_os.Storage.Memory.Compare.{total}

-- What stands in the structure of a tree: the begin of a node with its name, a property with the
-- offset of its name among the strings and its data, the end of a node, and nothing.
pub data Item : Type 0 where
  enter : List ℕ → Item
  property : ℕ → List ℕ → Item
  leave : Item
  nop : Item

unfoldable pub word : ℕ → List ℕ
word w = w / 2 ^ 24 % 256 ∷ w / 2 ^ 16 % 256 ∷ w / 2 ^ 8 % 256 ∷ w % 256 ∷ []

-- The bytes of a structure, with its end.
unfoldable pub encode : List Item → List ℕ
encode [] = word 0x09 ++ []
encode (enter name ∷ xs) =
    word 0x01 ++ (name ++ (0 ∷ (replicate (3 - length name % 4) 0 ++ encode xs)))
encode (property name bytes ∷ xs) =
    word 0x03
    ++ (word (length bytes)
        ++ (word name ++ (bytes ++ (replicate ((4 - length bytes % 4) % 4) 0 ++ encode xs))))
encode (leave ∷ xs) = word 0x02 ++ encode xs
encode (nop ∷ xs) = word 0x04 ++ encode xs

-- How many bytes an item takes.
unfoldable pub size : Item → ℕ
size (enter name) = 4 + length name + (4 - length name % 4)
size (property name bytes) = 12 + length bytes + (4 - length bytes % 4) % 4
size leave = 4
size nop = 4

unfoldable pub IsName : List ℕ → Type 0
IsName [] = Unit
IsName (c ∷ cs) = (c ≢ 0) × IsName cs

unfoldable pub AreItems : List Item → Type 0
AreItems [] = Unit
AreItems (enter name ∷ xs) = IsName name × AreItems xs
AreItems (property name bytes ∷ xs) = (name < 2 ^ 32) × (length bytes < 2 ^ 32) × AreItems xs
AreItems (leave ∷ xs) = AreItems xs
AreItems (nop ∷ xs) = AreItems xs

-- Bytes that stand in memory.
unfoldable pub Holds : Memory → ℕ → List ℕ → Type 0
Holds m a [] = Unit
Holds m a (b ∷ bs) = (m a ≡ b) × Holds m (a + 1) bs

-- As much as reading a structure takes: the tokens and the characters of the names.
unfoldable pub steps : List Item → ℕ
steps [] = 0
steps (enter name ∷ xs) = length name + 2 + steps xs
steps (property name bytes ∷ xs) = suc (steps xs)
steps (leave ∷ xs) = suc (steps xs)
steps (nop ∷ xs) = suc (steps xs)

-- The entry of the first property, up to the first end of a node, whose name begins with `c`; the
-- structure is at `a` and the strings at `strings`.
unfoldable pub first_property : Memory → ℕ → ℕ → ℕ → List Item → Option ℕ
first_property m strings c a [] = none
first_property m strings c a (property name bytes ∷ xs) =
    if m (strings + name) == c
    then some (a + 4)
    else first_property m strings c (a + size (property name bytes)) xs
first_property m strings c a (enter name ∷ xs) =
    first_property m strings c (a + size (enter name)) xs
first_property m strings c a (leave ∷ xs) = none
first_property m strings c a (nop ∷ xs) = first_property m strings c (a + 4) xs

-- The name of the first node whose first `k` bytes have the same sum, in 32 bits, as those at `text`.
unfoldable pub first_node : Memory → ℕ → ℕ → ℕ → List Item → Option ℕ
first_node m text k a [] = none
first_node m text k a (enter name ∷ xs) =
    if total m (a + 4) k % 2 ^ 32 == total m text k % 2 ^ 32
    then some (a + 4)
    else first_node m text k (a + size (enter name)) xs
first_node m text k a (property name bytes ∷ xs) =
    first_node m text k (a + size (property name bytes)) xs
first_node m text k a (leave ∷ xs) = first_node m text k (a + 4) xs
first_node m text k a (nop ∷ xs) = first_node m text k (a + 4) xs
