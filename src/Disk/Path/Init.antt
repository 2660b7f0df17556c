-- ===== src/Disk/Path/Init.antt =====
-- kernel/vdisk.cxx, virtual_disk::init: what stands in the tree of nodes when the kernel starts.
use kinnow_os.Prelude.{ℕ, ◌≡◌, refl, ap, true, none, some, List, [], ◌∷◌, ◌++◌, arith}
use kinnow_os.Prelude.Int.{pos, ◌+ℤ◌}
use kinnow_os.Disk.{Node, Driver}
use kinnow_os.Disk.NodeFlags
use kinnow_os.Disk.Perms.{Caller, check_perms, has_bits}
use kinnow_os.Disk.Nodes.{Disk, put_node, notify, text_of, add_child, create_node, fresh_node}
use kinnow_os.Disk.Path.{
  found, init, create_path, resolve_path, root_path, system_path, system_name, devices_name,
}

module _ {Device : Type 0} where
  -- The storage of the nodes at the start: zeroed.
  abbrev pub blank : Device → Disk Device
  blank dev = record {
    node = λ k. record {
      children = [];
      driver = none;
      owner_id = pos 0;
      user_flags = 0;
      group_flags = 0;
      sys_flags = 0;
      name = [];
    };
    device = dev;
  }

  -- The disk after `create` where nothing fails.
  after : Disk Device → ℕ → ℕ → List ℕ → Disk Device
  after s i j name =
      let s0 = put_node s j (fresh_node name) in
      let n = s0.node i in
      let s1 = put_node s0 j (record (s0.node j) {
        user_flags = n.user_flags;
        group_flags = n.group_flags;
        sys_flags = n.sys_flags;
      }) in
      let m = s1.node i in
      let s2 = put_node s1 i (record m { children = m.children ++ (j ∷ []) }) in
      record s2 { device = notify Driver.add_node m s2.device i j }

  create_node-after :
      (c : Caller) (s : Disk Device) (i j : ℕ) (name : List ℕ)
      → check_perms c ((put_node s j (fresh_node name)).node i) NodeFlags.add_child ≡ true
      → create_node c (some j) none s i name ≡ (some j, after s i j name)
  unfolding create_node add_child after
  create_node-after c s i j name granted = ground (arith, granted)

  check_perms-all :
      (c : Caller) (n : Node Device)
      → n.user_flags ≡ NodeFlags.all
      → n.sys_flags ≡ NodeFlags.all
      → check_perms c n NodeFlags.add_child ≡ true
  unfolding check_perms has_bits
  check_perms-all c n user sys = ground (arith, user, sys)

  -- The disk with its root, and the two disks that `init` makes of it.
  abbrev root : Device → Disk Device
  root dev = put_node (blank dev) 0 (record ((blank dev).node 0) {
    user_flags = NodeFlags.all;
    group_flags = NodeFlags.all;
    sys_flags = NodeFlags.all;
  })

  first : Device → Disk Device
  unfolding after
  first dev = after (root dev) 0 1 system_name

  second : Device → Disk Device
  unfolding first
  second dev = after (first dev) 1 2 devices_name

  first_step :
      (c : Caller) (dev : Device)
      → create_path 16 c (some 1) none (root dev) root_path system_name ≡ some (some 1, first dev)
  unfolding create_path first
  first_step c dev =
      ap some (create_node-after c (root dev) 0 1 system_name (check_perms-all c _ refl refl))

  second_step :
      (c : Caller) (dev : Device)
      → create_path 16 c (some 2) none (first dev) system_path devices_name
        ≡ some (some 2, second dev)
  unfolding create_path fresh_node text_of first second ◌+ℤ◌
  second_step c dev =
      ap some (create_node-after c (first dev) 1 2 devices_name (check_perms-all c _ refl refl))

  init-second :
      (c : Caller) (dev : Device)
      → init 16 c (some 1, none) (some 2, none) (blank dev) ≡ some (second dev)
  unfolding init
  init-second c dev = rw (init, first_step c dev, second_step c dev) refl

  -- After `init` for any user, with storage for both nodes, the path /SYSTEM/DEVICES is that of the
  -- second node.
  pub resolve_path-init :
      (c : Caller) (dev : Device)
      → (s : Disk Device) × (init 16 c (some 1, none) (some 2, none) (blank dev) ≡ some s)
        × (resolve_path 16 s (system_path ++ (b'/' ∷ devices_name)) ≡ found 2)
  unfolding resolve_path fresh_node text_of second ◌+ℤ◌
  resolve_path-init c dev = (second dev, init-second c dev, refl)
