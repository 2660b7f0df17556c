-- ===== src/Elf.antt =====
-- kernel/elf.cxx and elf.hxx, elf64: the check of an image, its section headers and the patches of a
-- relocation, on s390 (halfwords and words stand with their highest byte first). The image is in a
-- byte memory from `hdr` on and has `size` bytes; the headers that the compiler reads out of it are
-- arguments. Addresses are words of 64 bits, nullptr is `none`.
mod Patch
mod Escape
mod Tests
use kinnow_os.Prelude.{
  ℕ, ◌+◌, ◌-◌, ◌*◌, ◌/◌, ◌%◌, ◌^◌, Bool, not, Option, none, some, ◌==◌, ltb, leb, ◌&&◌,
  if◌then◌else◌,
}
use kinnow_os.Prelude.Int.{ℤ, pos, negsuc, is_zero}
use kinnow_os.Words.{bit_and, bit_or}
use kinnow_os.Storage.Memory.{Memory, write, compare}

-- `error::INVALID_SETUP`
abbrev pub invalid_setup : ℤ
invalid_setup = negsuc 2

-- `elf64::reader`, with the fields of the header that the code below looks at.
pub record Reader : Type 0 where
  pub hdr : ℕ
  pub size : ℕ
  pub prog_tab : ℕ
  pub prog_tab_entry_size : ℕ
  pub sect_tab : ℕ
  pub sect_tab_entry_size : ℕ
  pub str_shtab_idx : ℕ

-- `elf64::section_header` and `elf64::rela`; the addend is the word of 64 bits that it extends to.
pub record SectionHeader : Type 0 where
  pub offset : ℕ
  pub size : ℕ
  pub info : ℕ
  pub entsize : ℕ

pub record Rela : Type 0 where
  pub offset : ℕ
  pub info : ℕ
  pub addend : ℕ

-- `IS_IN_BOUNDS`
unfoldable pub in_bounds : Reader → ℕ → Bool
in_bounds rdr end = leb rdr.hdr end && ltb end ((rdr.hdr + rdr.size) % 2 ^ 64)

unfoldable pub get_phdr : Reader → ℕ → Option ℕ
unfolding in_bounds
get_phdr rdr idx =
    let phdr = (rdr.hdr + rdr.prog_tab + rdr.prog_tab_entry_size * idx) % 2 ^ 64 in
    if in_bounds rdr phdr then some phdr else none

unfoldable pub get_shdr : Reader → ℕ → Option ℕ
unfolding in_bounds
get_shdr rdr idx =
    let shdr = (rdr.hdr + rdr.sect_tab + rdr.sect_tab_entry_size * idx) % 2 ^ 64 in
    if in_bounds rdr shdr then some shdr else none

-- `get_string_shdr`; the test of an address that `get_shdr` gives succeeds again.
unfoldable pub get_string_shdr : Reader → Option ℕ
unfolding get_shdr
get_string_shdr rdr = get_shdr rdr rdr.str_shtab_idx

-- `check_valid`, with the address of ELF_MAGIC.
unfoldable pub check_valid : Reader → ℕ → Memory → ℤ
unfolding compare
check_valid rdr magic m = if is_zero (compare m rdr.hdr magic 4) then pos 0 else invalid_setup

abbrev pub read16 : Memory → ℕ → ℕ
read16 m a = m a * 2 ^ 8 + m (a + 1)

abbrev pub write16 : Memory → ℕ → ℕ → Memory
write16 m a v = write (write m a (v / 2 ^ 8 % 2 ^ 8)) (a + 1) (v % 2 ^ 8)

abbrev pub read32 : Memory → ℕ → ℕ
read32 m a = read16 m a * 2 ^ 16 + read16 m (a + 2)

abbrev pub write32 : Memory → ℕ → ℕ → Memory
write32 m a v = write16 (write16 m a (v / 2 ^ 16 % 2 ^ 16)) (a + 2) (v % 2 ^ 16)

-- `elf::reloc_types`
abbrev pub s390_8 : ℕ
s390_8 = 1

abbrev pub s390_12 : ℕ
s390_12 = 2

abbrev pub s390_16 : ℕ
s390_16 = 3

abbrev pub s390_32 : ℕ
s390_32 = 4

-- The case S390_12: `&= 0xf000`, then `|= ... & 0xfff`.
unfoldable pub patch12 : Memory → ℕ → ℕ → Memory
unfolding write
patch12 m ref offs =
    let cleared = write16 m ref (bit_and (read16 m ref) 0xf000) in
    write16 cleared ref
      (bit_or (read16 cleared ref) (bit_and ((offs % 2 ^ 16 + read16 cleared ref) % 2 ^ 16) 0xfff))

unfoldable pub reloc_patch : Memory → ℕ → ℕ → ℕ → ℤ × Memory
unfolding write patch12
reloc_patch m ref offs type =
    if type == s390_8
    then (pos 0, write m ref ((offs % 2 ^ 8 + m ref) % 2 ^ 8))
    else (if type == s390_12
        then (pos 0, patch12 m ref offs)
        else (if type == s390_16
            then (pos 0, write16 m ref ((offs % 2 ^ 16 + read16 m ref) % 2 ^ 16))
            else (if type == s390_32
                then (pos 0, write32 m ref ((offs % 2 ^ 32 + read32 m ref) % 2 ^ 32))
                else (pos 0, m))))

-- `do_reloc_add`, with the section header at an address of the image. The symbol of the entry is
-- looked up and not used.
module _ (section_at : Memory → ℕ → SectionHeader) where
  unfoldable pub patch_target : Reader → Rela → Option ℕ → Memory → ℤ × Memory
  unfolding in_bounds reloc_patch
  patch_target rdr rela none m = (invalid_setup, m)
  patch_target rdr rela (some target) m =
      let addr = (rdr.hdr + (section_at m target).offset) % 2 ^ 64 in
      if in_bounds rdr addr
      then reloc_patch m ((addr + rela.offset) % 2 ^ 64) rela.addend (rela.info % 2 ^ 32)
      else (invalid_setup, m)

  unfoldable pub do_reloc_add : Reader → Rela → SectionHeader → Memory → ℤ × Memory
  unfolding get_shdr patch_target
  do_reloc_add rdr rela reltab m = patch_target rdr rela (get_shdr rdr reltab.info) m
