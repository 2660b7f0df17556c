-- ===== src/Disk/Nodes.antt =====
-- kernel/vdisk.cxx, the operations on nodes. A new node is named by the number at which storage
-- for it is, `none` where there is none to be had.
pub mod Names
pub mod Frame
use Prim.Native.Nat.{bit_or}
use kinnow_os.Prelude.{
  ℕ, zero, suc, ◌+◌, Bool, true, false, not, Option, none, some, List, [], ◌∷◌, ◌++◌, ltb, ◌==◌,
  if◌then◌else◌, length, take,
}
use kinnow_os.Prelude.Int.{is_zero, ℤ, pos}
use kinnow_os.Disk.{Driver, Node}
use kinnow_os.Disk.NodeFlags
use kinnow_os.Disk.Perms.{Caller, check_perms}
use kinnow_os.Disk.Handle.{unprivileged, allocation}

-- The nodes by number, and the state of the devices behind them.
pub record Disk (Device : Type 0) : Type 0 where
  pub node : ℕ → Node Device
  pub device : Device

-- `sizeof(node->name)`
abbrev pub name_size : ℕ
name_size = 24

-- The bytes that `create` writes from `name[0]` on: the name, cut to the size of the array, and an
-- end byte.
unfoldable pub stored_name : List ℕ → List ℕ
stored_name name =
    let len = if ltb name_size (length name) then name_size else length name in
    take len name ++ (0 ∷ [])

-- The text that an array of bytes holds: what is in front of its end byte.
unfoldable pub text_of : List ℕ → List ℕ
text_of [] = []
text_of (c ∷ cs) = if c == 0 then [] else c ∷ text_of cs

module _ {Device : Type 0} where
  abbrev pub put_node : Disk Device → ℕ → Node Device → Disk Device
  put_node s i n = record s { node = λ k. if k == i then n else s.node k }

  -- A callback of the driver of a node that takes the node and another.
  abbrev pub notify :
      (Driver Device → Option (Device → ℕ → ℕ → Device)) → Node Device → Device → ℕ → ℕ → Device
  notify f n dev i j = elim n.driver [
    | none ↦ dev
    | some d ↦ elim (f d) [ none ↦ dev | some call ↦ call dev i j ]
  ]

  -- `node::add_child` of the node `i`; `stray` is `none` where the list of children can grow. Where it
  -- is refused the storage, its size has grown all the same, and it shows what stands behind its
  -- elements, the number in `stray`.
  unfoldable pub add_child : Caller → Option ℕ → Disk Device → ℕ → ℕ → ℤ × Disk Device
  add_child c stray s i child =
      let n = s.node i in
      let s1 = put_node s child (record (s.node child) {
        user_flags = n.user_flags;
        group_flags = n.group_flags;
        sys_flags = n.sys_flags;
      }) in
      let m = s1.node i in
      let longer = λ (k : ℕ). put_node s1 i (record m { children = m.children ++ (k ∷ []) }) in
      let s2 = longer child in
      if not (check_perms c n NodeFlags.add_child) then (unprivileged, s) else elim stray [
        | some k ↦ (allocation, longer k)
        | none ↦ (pos 0, record s2 { device = notify Driver.add_node m s2.device i child })
      ]

  -- `children.remove(&child)` is given the address of the parameter, which is no element of the
  -- list, and removes nothing.
  pub remove_child : Disk Device → ℕ → ℕ → ℤ × Disk Device
  remove_child s i child =
      (pos 0, record s { device = notify Driver.remove_node (s.node i) s.device i child })

  -- The new node of `create`: zeroed storage and the name.
  unfoldable pub fresh_node : List ℕ → Node Device
  unfolding stored_name
  fresh_node name = record {
    children = [];
    driver = none;
    owner_id = pos 0;
    user_flags = 0;
    group_flags = 0;
    sys_flags = 0;
    name = stored_name name;
  }

  -- `node::create` below the node `root`.
  unfoldable pub create_node :
      Caller → Option ℕ → Option ℕ → Disk Device → ℕ → List ℕ → Option ℕ × Disk Device
  unfolding fresh_node add_child
  create_node c none stray s root name = (none, s)
  create_node c (some i) stray s root name =
      let (r, s') = add_child c stray (put_node s i (fresh_node name)) root i in
      if is_zero r then (some i, s') else (none, s')
