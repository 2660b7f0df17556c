-- ===== src/Elf/Patch.antt =====
-- What a patch makes of the field at its reference, and what the check of an image accepts.
use kinnow_os.Prelude.{ℕ, ◌%◌, ◌^◌, ◌≡◌, ◌↔◌, arith}
use kinnow_os.Prelude.Int.{pos}
use kinnow_os.Storage.Memory.{Memory}
use kinnow_os.Storage.Memory.Compare.{total, compare_iff}
use kinnow_os.Elf.{Reader, check_valid}

-- check_valid takes an image exactly if its first four bytes have the sum of those of the magic
-- number, modulo 2 ^ 32, whatever their order.
pub check_valid_iff :
    (rdr : Reader) (magic : ℕ) (m : Memory)
    → (check_valid rdr magic m ≡ pos 0) ↔ (total m rdr.hdr 4 % 2 ^ 32 ≡ total m magic 4 % 2 ^ 32)
unfolding check_valid
check_valid_iff rdr magic m = ground (arith, compare_iff m rdr.hdr magic 4)
