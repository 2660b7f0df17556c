-- ===== src/Elf/Tests.antt =====
-- Patches at concrete inputs, and instances of the theorems.
use kinnow_os.Prelude.{◌+◌, ◌*◌, ◌%◌, ◌^◌, ◌≡◌, refl, true, Option, some, arith}
use kinnow_os.Prelude.Int.{pos}
use kinnow_os.Storage.Memory.{Memory, write}
use kinnow_os.Elf.{Reader, SectionHeader, Rela, in_bounds, get_shdr, do_reloc_add}
use kinnow_os.Elf.Escape.{do_reloc_add-escapes}

abbrev counting : Memory
counting a = (a * 7 + 3) % 256

abbrev image : Reader
image = record {
  hdr = 0x1000;
  size = 0x400;
  prog_tab = 64;
  prog_tab_entry_size = 56;
  sect_tab = 0x100;
  sect_tab_entry_size = 64;
  str_shtab_idx = 1;
}

abbrev section : SectionHeader
section = record { offset = 0x200; size = 24; info = 1; entsize = 24 }

shdr_found : get_shdr image 1 ≡ some 0x1140
unfolding get_shdr
shdr_found = refl

shdr_lost : get_shdr image 100 ≡ Option.none
unfolding get_shdr
shdr_lost = refl

inside : in_bounds image 0x1200 ≡ true
unfolding in_bounds
inside = refl

-- A byte in front of the image.
do_reloc_add-escapes_example :
    (rela : Rela) × (do_reloc_add (λ m a. section) image rela section counting
      ≡ (pos 0, write counting 16 ((7 + counting 16) % 2 ^ 8)))
do_reloc_add-escapes_example =
    do_reloc_add-escapes (λ m a. section) image section counting 0x1140 16 7 shdr_found inside
      (omega arith) (omega arith)
