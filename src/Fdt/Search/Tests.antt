-- ===== src/Fdt/Search/Tests.antt =====
-- Instances of the theorems about the search for a node at concrete inputs.
use kinnow_os.Prelude.{ℕ, zero, suc, ◌+◌, ◌*◌, ◌<◌, ◌≡◌, refl, some, List, [], ◌∷◌, arith, get_or}
use kinnow_os.Storage.Memory
use kinnow_os.Storage.Memory.{Memory}
use kinnow_os.Storage.Memory.Compare.{total}
use kinnow_os.Storage.Text
use kinnow_os.Fdt.Walk.{word_at}
use kinnow_os.Fdt.Search.{get_node}
use kinnow_os.Fdt.Search.Nodes.{IsOneName}
use kinnow_os.Fdt.Search.Tree.{IsNoToken, IsTree}
use kinnow_os.Fdt.Search.Unit.{HasUnit, get_node-unit}
use kinnow_os.Fdt.Format.Reads.{holds_all, Holds-holds_all}
use kinnow_os.Fdt.Format.{
  Item, enter, property, word, encode, AreItems, IsName, Holds, first_node, size, steps,
}

-- A property, and a node "ba".
abbrev items : List Item
items = property 0 (7 ∷ []) ∷ enter (b'b' ∷ b'a' ∷ []) ∷ []

-- A buffer at 0, the paths "/ab@1" and "/ab" at 8 and 16, a word of a header at 24 and the
-- structure at 28.
abbrev tree : Memory
tree a =
    get_or
      (0 ∷ 0 ∷ 0 ∷ 0 ∷ 0 ∷ 0 ∷ 0 ∷ 0 ∷ b'/' ∷ b'a' ∷ b'b' ∷ b'@' ∷ b'1' ∷ 0 ∷ 0 ∷ 0 ∷ b'/' ∷ b'a'
        ∷ b'b' ∷ 0 ∷ 0 ∷ 0 ∷ 0 ∷ 0 ∷ 0xD0 ∷ 0x0D ∷ 0xFE ∷ 0xED ∷ 0 ∷ 0 ∷ 0 ∷ 3 ∷ 0 ∷ 0 ∷ 0 ∷ 1 ∷ 0
        ∷ 0 ∷ 0 ∷ 0 ∷ 7 ∷ 0 ∷ 0 ∷ 0 ∷ 0 ∷ 0 ∷ 0 ∷ 1 ∷ b'b' ∷ b'a' ∷ 0 ∷ 0 ∷ 0 ∷ 0 ∷ 0 ∷ 9 ∷ [])
      a 0

-- With a copy of the name and the unit, and where this is cut.
abbrev with_unit : Memory
with_unit =
    Memory.write
      (Memory.write (Memory.write (Memory.write (Memory.write tree 0 b'a') 1 b'b') 2 b'@') 3 b'1') 4
      0

abbrev with_cut : Memory
with_cut = Memory.write with_unit (0 + 2) 0

copied_unit : Text.copy 11 tree 0 9 ≡ some (with_unit, 5)
unfolding Text.copy Memory.write
copied_unit = refl

header_word :
    (m : Memory) (least : ℕ)
    → word_at m 24 ≡ 0xD00DFEED
    → (i : ℕ) → i < 1
    → IsNoToken m least (word_at m (24 + 4 * i))
unfolding IsNoToken
header_word m least e zero lt =
    (λ q. omega (arith, e, q), λ q. omega (arith, e, q), λ q. omega (arith, e, q))
header_word m least e (suc i) lt = absurd (omega arith)

items-Holds_cut : Holds with_cut 28 (encode items)
unfolding holds_all encode word Memory.write
items-Holds_cut = Holds-holds_all with_cut 28 (encode items) refl

items-AreItems : AreItems items
unfolding AreItems IsName
items-AreItems =
    (omega arith, omega arith, ((λ e. omega (arith, e), (λ e. omega (arith, e), tt)), tt))

cut-IsTree : IsTree with_cut 4 24 1 items
unfolding word_at Memory.write
cut-IsTree = record {
  header = header_word with_cut 4 refl;
  aligned = refl;
  items = items-AreItems;
  structure = items-Holds_cut;
}

cut-IsOneName : IsOneName with_cut 9 4 0 2
unfolding Memory.write
cut-IsOneName = record {
  key_text = record { ends = refl; goes_on = λ i h. grind arith };
  name_text = record { ends = refl; goes_on = λ i h. grind arith };
  no_slash = λ i h. grind arith;
  name_no_slash = λ i h. grind arith;
  name_no_at = λ i h. grind arith;
}

unit-HasUnit : HasUnit with_unit 0 2 4
unfolding Memory.write
unit-HasUnit = record {
  text = record { ends = refl; goes_on = λ i h. grind arith };
  inside = omega arith;
  at_sign = refl;
  first = λ i h. grind arith;
}

get_node-unit_example :
    get_node 11 tree 24 8 (some 0) ≡ some (first_node with_cut 0 2 (24 + 4 * 1) items)
unfolding steps
get_node-unit_example =
    get_node-unit tree with_unit 10 24 1 8 4 0 2 5 items (omega arith) refl copied_unit unit-HasUnit
      cut-IsOneName cut-IsTree (omega arith)

-- The node "ba" is taken for "ab".
anagram : first_node with_cut 0 2 28 items ≡ some 48
unfolding first_node size total Memory.write
anagram = refl
