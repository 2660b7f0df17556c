-- ===== src/Fdt/Search/Unit.antt =====
-- kernel/fdt.cxx, get_node of a name with a unit behind an at sign, which is cut off.
use kinnow_os.Prelude.{ℕ, suc, ◌+◌, ◌*◌, ◌≤◌, ◌<◌, ◌≡◌, ◌≢◌, refl, ◌∙◌, some, List, arith, ==_ne}
use kinnow_os.Storage.Memory.{Memory, write}
use kinnow_os.Storage.Text
use kinnow_os.Storage.Text.{IsText}
use kinnow_os.Storage.Text.Scan.{find_char-at, find_char-absent}
use kinnow_os.Fdt.Walk.{word_at, behind_prop}
use kinnow_os.Fdt.Search.{get_node, search, is_named, cut}
use kinnow_os.Fdt.Search.Nodes.{Nodes, closed, property, node, other, IsOneName, find_first}
use kinnow_os.Fdt.Format.{Item, steps, first_node}
use kinnow_os.Fdt.Format.Reads.{padding_lem}
use kinnow_os.Fdt.Search.Tree.{From, IsTree, tree-From, search-tree}

-- The text in a buffer, with its first at sign at the index `k`.
pub record HasUnit (m : Memory) (tmpbuf k len : ℕ) : Type 0 where
  pub text : IsText m tmpbuf len
  pub inside : k < len
  pub at_sign : m (tmpbuf + k) ≡ b'@'
  pub first : (i : ℕ) → i < k → m (tmpbuf + i) ≢ b'@'

behind_prop-le : (m : Memory) (x : ℕ) → x ≤ behind_prop m x
unfolding behind_prop
behind_prop-le m x = omega (arith, padding_lem m (x + 8 + word_at m x))

-- The buffer stands in front of the tree, and has an at sign at the index `k`, behind the name.
module _ (m : Memory) (tmpbuf k hdr : ℕ) (apart : tmpbuf + k < hdr) where
  abbrev pub cut_name : Memory
  cut_name = write m (tmpbuf + k) 0

  above : (x : ℕ) → hdr ≤ x → m x ≡ cut_name x
  unfolding write
  above x h = ground arith

  word_at-above : (x : ℕ) → hdr ≤ x → word_at m x ≡ word_at cut_name x
  unfolding word_at
  word_at-above x h =
      rw
        (
          above x h,
          above (x + 1) (omega arith),
          above (x + 2) (omega arith),
          above (x + 3) (omega arith),
        )
        refl

  behind_prop-above : (x : ℕ) → hdr ≤ x → behind_prop m x ≡ behind_prop cut_name x
  unfolding behind_prop
  behind_prop-above x h = rw (word_at-above x h) refl

  is_named-cut :
      (len key q fuel p : ℕ)
      → HasUnit m tmpbuf k len
      → IsOneName cut_name key q tmpbuf k
      → len < fuel
      → is_named fuel m tmpbuf p ≡ is_named fuel cut_name tmpbuf p
  unfolding is_named cut
  is_named-cut len key q fuel p unit name enough =
      let found : Text.find_char fuel m tmpbuf b'@' ≡ some (some (tmpbuf + k)) =
        find_char-at m fuel tmpbuf len b'@' k unit.text enough unit.inside unit.at_sign
          unit.first in
      let none_left =
        find_char-absent cut_name fuel tmpbuf k b'@' name.name_text (omega (arith, unit.inside))
          name.name_no_at in
      rw (is_named, cut, found, none_left) refl

  search-cut :
      (least len key q n off : ℕ) (ps : List ℕ)
      → HasUnit m tmpbuf k len
      → IsOneName cut_name key q tmpbuf k
      → len ≤ least
      → hdr ≤ off
      → Nodes cut_name least n off ps
      → search n m off key tmpbuf ≡ search n cut_name off key tmpbuf
  unfolding search
  search-cut least len key q n off ps unit name le h (closed n' off' e) =
      rw (word_at-above off' h, e) refl
  search-cut least len key q n off ps unit name le h (property n' off' ps' e more) =
      rw (word_at-above off' h, e, behind_prop-above (off' + 4) (omega arith))
        (search-cut least len key q n' (behind_prop cut_name (off' + 4)) ps' unit name le
          (omega (arith, h, behind_prop-le cut_name (off' + 4))) more)
  search-cut least len key q n off ps unit name le h (node n' off' j ps' e text small enough more) =
      rw (word_at-above off' h, e, is_named-cut len key q n' (off' + 4) unit name (omega arith))
        refl
  search-cut least len key q n off ps unit name le h (other n' off' ps' e1 e2 e3 more) =
      rw (word_at-above off' h, ==_ne _ _ e1, ==_ne _ _ e2, ==_ne _ _ e3)
        (search-cut least len key q n' (off' + 4) ps' unit name le (omega arith) more)

-- For a path of one name with an at sign and a unit behind it, whose copy is in front of the tree;
-- over a structure in the format of device trees, behind words that are no tokens from the header on;
-- with fuel for these, the structure and the path: `get_node` cuts the copy at the sign and returns
-- the name of the first node whose first bytes have the same sum, in 32 bits, as the name without
-- the unit, and `nullptr` exactly if there is none. All but the slash is read after the copy.
pub get_node-unit :
    (m m' : Memory) (n hdr d key q tmpbuf k s : ℕ) (xs : List Item)
    → tmpbuf + k < hdr
    → m key ≡ b'/'
    → Text.copy (suc n) m tmpbuf (key + 1) ≡ some (m', s)
    → HasUnit m' tmpbuf k q
    → IsOneName (write m' (tmpbuf + k) 0) (key + 1) q tmpbuf k
    → IsTree (write m' (tmpbuf + k) 0) q hdr d xs
    → q + (d + steps xs) < suc n
    → get_node (suc n) m hdr key (some tmpbuf)
      ≡ some (first_node (write m' (tmpbuf + k) 0) tmpbuf k (hdr + 4 * d) xs)
unfolding get_node From
get_node-unit m m' n hdr d key q tmpbuf k s xs apart slash copied unit name tree fuel =
    let cut_m = write m' (tmpbuf + k) 0 in
    let (ps, from, same) = tree-From cut_m q tmpbuf k hdr d xs tree in
    let walk = from (suc n) fuel in
    rw (get_node, find_first n m key slash, copied)
      (search-cut m' tmpbuf k hdr apart q q (key + 1) q (suc n) hdr ps unit name (omega arith)
          (omega arith) walk
        ∙ search-tree cut_m q (suc n) hdr d (key + 1) q tmpbuf k xs name (omega arith)
            (omega (arith, unit.inside)) tree fuel)
