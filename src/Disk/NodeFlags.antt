-- ===== src/Disk/NodeFlags.antt =====
-- kernel/vdisk.hxx, virtual_disk::node_flags.
use Prim.Native.Nat.{bit_or}
use kinnow_os.Prelude.{ℕ}

abbrev pub write : ℕ
write = 0x01

abbrev pub read : ℕ
read = 0x02

abbrev pub access : ℕ
access = 0x04

abbrev pub prescence : ℕ
prescence = 0x08

abbrev pub execute : ℕ
execute = 0x10

abbrev pub system : ℕ
system = 0x20

abbrev pub remove : ℕ
remove = 0x40

abbrev pub add_child : ℕ
add_child = 0x80

abbrev pub text : ℕ
text = 0x100

-- The flags that the root has.
abbrev pub all : ℕ
all = bit_or access (
    bit_or add_child
      (bit_or execute (bit_or prescence (bit_or read (bit_or remove (bit_or system write))))))
