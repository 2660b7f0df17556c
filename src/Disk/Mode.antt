-- ===== src/Disk/Mode.antt =====
-- kernel/vdisk.hxx, virtual_disk::mode.
use kinnow_os.Prelude.{ℕ}

abbrev pub read : ℕ
read = 0x01

abbrev pub write : ℕ
write = 0x02

abbrev pub buffered : ℕ
buffered = 0x04
