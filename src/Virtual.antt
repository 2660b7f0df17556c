-- ===== src/Virtual.antt =====
-- kernel/s390/virtual.cxx and virtual.hxx, on z/Architecture (MACHINE >= M_ZARCH): address spaces
-- with a table of segments and tables of pages. Storage is a function from the address of an entry,
-- a multiple of eight, to its 64 bits; nullptr is 0. What real_storage::alloc gives is an argument,
-- `none` for nullptr.
pub mod Entries
pub mod Translate
pub mod Pages
pub mod Range
pub mod Reverse
pub mod New
mod Tests
use kinnow_os.Prelude.{
  ℕ, zero, suc, ◌+◌, ◌-◌, ◌*◌, ◌/◌, ◌%◌, ◌^◌, Bool, not, Option, none, some, ◌==◌, if◌then◌else◌,
}
use kinnow_os.Prelude.Int.{ℤ, pos, negsuc}
use kinnow_os.Words.{bit_and, bit_or}

abbrev pub Entries : Type 0
Entries = ℕ → ℕ

abbrev pub page_align : ℕ
page_align = 4096

abbrev pub max_pages : ℕ
max_pages = 256

abbrev pub max_segments : ℕ
max_segments = 2048

-- `error::ALLOCATION`
abbrev pub allocation : ℤ
allocation = negsuc 1

unfoldable pub write : Entries → ℕ → ℕ → Entries
write m p v a = if a == p then v else m a

-- `segment_entry::origin`; the mask is `~(0x7FFU)`, of 32 bits.
unfoldable pub segment_origin : ℕ → ℕ
segment_origin entry = bit_and entry 0xfffff800

-- `segment_entry::invalid`, and `page_entry::origin` and `invalid`
unfoldable pub segment_invalid : ℕ → Bool
segment_invalid entry = not (bit_and entry 0x20 == 0)

unfoldable pub page_origin : ℕ → ℕ
page_origin entry = bit_and entry 0xfffff000

unfoldable pub page_invalid : ℕ → Bool
page_invalid entry = not (bit_and entry 0x400 == 0)

unfoldable pub segment_idx : ℕ → ℕ
segment_idx v = bit_and (v / 2 ^ 20) 0x7ff

unfoldable pub page_idx : ℕ → ℕ
page_idx v = bit_and (v / 2 ^ 12) 0xff

-- `for(i = ...; i < max; i++) table[i].invalid(true)`, with the entries that are left.
unfoldable pub invalidate : ℕ → ℕ → ℕ → Entries → Entries
invalidate bit a zero m = m
invalidate bit a (suc n) m = invalidate bit (a + 8) n (write m a (bit_or (m a) bit))

pub record AddressSpace : Type 0 where
  pub cr1 : ℕ
  pub segtab : ℕ

-- `address_space::create`, without the space of the object itself.
unfoldable pub create : Option ℕ → Entries → Option (AddressSpace × Entries)
create none m = none
create (some segtab) m = some (
  record { cr1 = bit_or segtab (max_segments / 512 - 1); segtab = segtab },
  invalidate 0x20 segtab max_segments m,
)

-- `pagetab[page_idx].entry = _physaddr | flags;`
unfoldable pub set_page : ℕ → ℕ → ℕ → ℕ → Entries → Entries
set_page pagetab v p flags m = write m (pagetab + 8 * page_idx v) (bit_or p flags)

-- The end of `map_page` for a segment that has a table.
unfoldable pub map_old : ℕ → ℕ → ℕ → ℕ → Entries → ℤ × Entries
map_old pagetab v p flags m =
    if pagetab == 0 then (allocation, m) else (pos 0, set_page pagetab v p flags m)

-- `size`, up to a multiple of `page_align`
unfoldable pub align_size : ℕ → ℕ
align_size size =
    if size % page_align == 0 then size else (size + (page_align - size % page_align)) % 2 ^ 64

-- The inner loop of `address_space::phys2virt`, with the entries that are left.
unfoldable pub find_page : Entries → ℕ → ℕ → ℕ → ℕ → ℕ → Option ℕ
find_page m pagetab p i j zero = none
find_page m pagetab p i j (suc n) =
    let entry = m (pagetab + 8 * j) in
    let rest = find_page m pagetab p i (j + 1) n in
    if page_invalid entry
    then rest
    else (if page_origin entry == p
        then some (bit_or (bit_or (i * 2 ^ 20) (j * 2 ^ 12)) (bit_and p 0xfff))
        else rest)

-- `address_space::map_page`; `map_new` is its way with a new table.
module _ (segtab : ℕ) where
  unfoldable pub map_new : Option ℕ → ℕ → ℕ → ℕ → Entries → ℤ × Entries
  map_new none v p flags m = (allocation, m)
  map_new (some pagetab) v p flags m = (
    pos 0,
    set_page pagetab v p flags
        (write (invalidate 0x400 pagetab max_pages m) (segtab + 8 * segment_idx v) pagetab),
  )

  unfoldable pub map_page : Option ℕ → ℕ → ℕ → ℕ → Entries → ℤ × Entries
  map_page fresh v p flags m =
      let segment = m (segtab + 8 * segment_idx v) in
      if segment_invalid segment
      then map_new fresh v p flags m
      else map_old (segment_origin segment) v p flags m

  -- `address_space::virtual_to_real`
  unfoldable pub virtual_to_real : Entries → ℕ → ℕ
  virtual_to_real m v =
      let segment = m (segtab + 8 * segment_idx v) in
      let pagetab = segment_origin segment in
      if segment_invalid segment
      then 0
      else (if pagetab == 0
          then 0
          else bit_or (page_origin (m (pagetab + 8 * page_idx v))) (bit_and v 0xfff))

  -- The outer loop of `address_space::phys2virt`, and the function.
  unfoldable pub find_segment : Entries → ℕ → ℕ → ℕ → Option ℕ
  find_segment m p i zero = none
  find_segment m p i (suc n) =
      let segment = m (segtab + 8 * i) in
      let rest = find_segment m p (i + 1) n in
      if segment_invalid segment
      then rest
      else elim (find_page m (segment_origin segment) p i 0 max_pages) [
        | some v ↦ some v
        | none ↦ rest
      ]

  -- Where nothing is found, the result is the null pointer, 0.
  abbrev or_null : Option ℕ → ℕ
  or_null none = 0
  or_null (some v) = v

  unfoldable pub phys2virt : Entries → ℕ → ℕ
  phys2virt m p = or_null (find_segment m p 0 max_segments)

  -- The loop of `address_space::map_range`, with the pages that are left: what a call of `map_page`
  -- returns is not looked at. `fresh i` is what an allocation in round `i` gives.
  unfoldable pub map_loop : (ℕ → Option ℕ) → ℕ → ℕ → ℕ → ℕ → ℕ → Entries → Entries
  map_loop fresh v p flags i zero m = m
  map_loop fresh v p flags i (suc n) m =
      map_loop fresh v p flags (i + 1) n
        (map_page (fresh i) ((v + i * page_align) % 2 ^ 64) ((p + i * page_align) % 2 ^ 64) flags
          m).1

  unfoldable pub map_range : (ℕ → Option ℕ) → ℕ → ℕ → ℕ → ℕ → Entries → ℤ × Entries
  map_range fresh v p flags size m =
      (pos 0, map_loop fresh v p flags 0 (align_size size / page_align) m)
