-- ===== src/Disk.antt =====
-- kernel/vdisk.hxx and kernel/vdisk.cxx: nodes, drivers and handles. Nodes stand in a store, a
-- function from their number, and a pointer to a node is that number. A driver is a record of
-- the callbacks it sets, `none` for `nullptr`, over a state `Device` of its own. A name, a path and
-- a buffer are the lists of their bytes.
pub mod NodeFlags
pub mod Mode
pub mod Perms
pub mod Handle
pub mod Nodes
pub mod Path
mod Tests
use kinnow_os.Prelude.{ℕ, Bool, Option, none, some, List, []}
use kinnow_os.Prelude.Int.{ℤ, pos}

-- `virtual_disk::disk_loc`
pub record DiskLoc : Type 0 where
  pub cylinder : ℕ
  pub track : ℕ
  pub record_no : ℕ

-- `virtual_disk::driver`, without the list of nodes that it registers. Of `request_node` the code
-- looks only at whether it is there. The callbacks are given no handle here: what a driver finds by way
-- of it (its own data, the node) is taken to be part of `Device`.
pub record Driver (Device : Type 0) : Type 0 where
  pub open_handle : Option (Device → ℤ × Device)
  pub close_handle : Option (Device → ℤ × Device)
  pub write : Option (Device → List ℕ → ℤ × Device)
  pub read : Option (Device → ℕ → ℤ × List ℕ × Device)
  pub ioctl : Option (Device → ℤ → List ℕ → ℤ × Device)
  pub write_disk : Option (Device → DiskLoc → List ℕ → ℤ × Device)
  pub read_disk : Option (Device → DiskLoc → ℕ → ℤ × List ℕ × Device)
  pub add_node : Option (Device → ℕ → ℕ → Device)
  pub remove_node : Option (Device → ℕ → ℕ → Device)
  pub request_node : Bool

-- `virtual_disk::node`; a user is named by the number that its identifier shows as.
pub record Node (Device : Type 0) : Type 0 where
  pub children : List ℕ
  pub driver : Option (Driver Device)
  pub owner_id : ℤ
  pub user_flags : ℕ
  pub group_flags : ℕ
  pub sys_flags : ℕ
  pub name : List ℕ
