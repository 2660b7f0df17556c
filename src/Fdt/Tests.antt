-- ===== src/Fdt/Tests.antt =====
-- Instances of the theorems about the device tree at concrete inputs.
use kinnow_os.Prelude.{◌+◌, ℕ, ◌≡◌, refl, false, some, List, [], ◌∷◌, ◌++◌, arith, get_or}
use kinnow_os.Storage.Memory.{Memory}
use kinnow_os.Libio.Number.{ulltoa}
use kinnow_os.Fdt.{get_node_address}
use kinnow_os.Fdt.Address.{get_node_address-ulltoa}
use kinnow_os.Fdt.Walk.{get_prop}
use kinnow_os.Fdt.Walk.Tree.{get_prop-encode}
use kinnow_os.Fdt.Format.{
  Item, property, leave, word, encode, AreItems, Holds, steps, first_property,
}
use kinnow_os.Fdt.Format.Reads.{holds_all, Holds-holds_all}

get_node_address-ulltoa_example :
    (text : List ℕ) × (ulltoa 17 0x1F 16 false ≡ some text)
    × (get_node_address ((b'u' ∷ b'r' ∷ []) ++ (b'@' ∷ text)) ≡ 0x1F)
get_node_address-ulltoa_example = get_node_address-ulltoa (b'u' ∷ b'r' ∷ []) 0x1F refl (omega arith)

-- A header of four words at 0, a property of "r" and the end of a node at 16, the strings at 40, and
-- the key behind them.
abbrev items : List Item
items = property 0 (7 ∷ []) ∷ leave ∷ []

abbrev tree : Memory
tree a =
    get_or
      (0xD0 ∷ 0x0D ∷ 0xFE ∷ 0xED ∷ 0 ∷ 0 ∷ 0 ∷ 48 ∷ 0 ∷ 0 ∷ 0 ∷ 16 ∷ 0 ∷ 0 ∷ 0 ∷ 40 ∷ 0 ∷ 0 ∷ 0 ∷ 3
        ∷ 0 ∷ 0 ∷ 0 ∷ 1 ∷ 0 ∷ 0 ∷ 0 ∷ 0 ∷ 7 ∷ 0 ∷ 0 ∷ 0 ∷ 0 ∷ 0 ∷ 0 ∷ 2 ∷ 0 ∷ 0 ∷ 0 ∷ 9 ∷ b'r' ∷ 0
        ∷ b'r' ∷ 0 ∷ [])
      a 0

header-Holds : Holds tree 0 (word 0xD00DFEED ++ (word 48 ++ (word 16 ++ (word 40 ++ []))))
unfolding holds_all word
header-Holds =
    Holds-holds_all tree 0 (word 0xD00DFEED ++ (word 48 ++ (word 16 ++ (word 40 ++ [])))) refl

items-Holds : Holds tree 16 (encode items)
unfolding holds_all encode word
items-Holds = Holds-holds_all tree 16 (encode items) refl

get_prop-encode_example :
    get_prop 3 tree 0 16 42 ≡ some (first_property tree (0 + 40) (tree 42) 16 items)
unfolding AreItems steps
get_prop-encode_example =
    get_prop-encode tree 3 0 0xD00DFEED 48 16 40 42 16 [] items (omega arith) header-Holds refl
      (omega arith, omega arith, tt) items-Holds (omega arith)

found : first_property tree 40 b'r' 16 items ≡ some 20
unfolding first_property
found = refl
