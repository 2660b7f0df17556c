-- ===== src/Elf/Escape.antt =====
-- The reference of a relocation is not bounded by the image.
use kinnow_os.Prelude.{ℕ, ◌+◌, ◌-◌, ◌%◌, ◌^◌, ◌≤◌, ◌<◌, ◌≡◌, refl, true, some, arith}
use kinnow_os.Prelude.Int.{pos}
use kinnow_os.Storage.Memory.{Memory, write}
use kinnow_os.Elf.{
  Reader, SectionHeader, Rela, in_bounds, get_shdr, reloc_patch, patch_target, do_reloc_add, s390_8,
}

-- A section header that get_shdr gives begins inside the image.
pub get_shdr-bounds :
    (rdr : Reader) (idx a : ℕ)
    → get_shdr rdr idx ≡ some a
    → (rdr.hdr ≤ a) × (a < (rdr.hdr + rdr.size) % 2 ^ 64)
unfolding get_shdr in_bounds
get_shdr-bounds rdr idx a h = ground arith

-- In an image with a section whose header and contents begin inside it, for every address there is
-- an entry by which do_reloc_add adds a byte to the byte at the address, inside of the image or
-- not, and returns 0.
pub do_reloc_add-escapes :
    (section_at : Memory → ℕ → SectionHeader) (rdr : Reader) (reltab : SectionHeader) (m : Memory)
    (target a byte : ℕ)
    → get_shdr rdr reltab.info ≡ some target
    → in_bounds rdr ((rdr.hdr + (section_at m target).offset) % 2 ^ 64) ≡ true
    → a < 2 ^ 64
    → byte < 2 ^ 8
    → (rela : Rela) × (do_reloc_add section_at rdr rela reltab m
        ≡ (pos 0, write m a ((byte + m a) % 2 ^ 8)))
unfolding do_reloc_add patch_target reloc_patch
do_reloc_add-escapes section_at rdr reltab m target a byte found inside low small =
    let addr = (rdr.hdr + (section_at m target).offset) % 2 ^ 64 in
    let ref : (addr + (a + 2 ^ 64 - addr)) % 2 ^ 64 ≡ a = omega arith in
    let cut : byte % 2 ^ 8 ≡ byte = omega arith in
    (
      record { offset = a + 2 ^ 64 - addr; info = s390_8; addend = byte },
      rw (found, inside, ref, cut) refl,
    )
