-- ===== src/Virtual/Tests.antt =====
-- An address space at concrete inputs, and instances of the theorems.
use kinnow_os.Prelude.{
  ℕ, ◌+◌, ◌-◌, ◌*◌, ◌/◌, ◌%◌, ◌^◌, ◌≤◌, ◌<◌, ◌≡◌, ◌≢◌, ◌⊎◌, ◌↔◌, inr, true, some, arith,
}
use kinnow_os.Prelude.Int.{pos}
use kinnow_os.Virtual.{
  Entries, segment_invalid, segment_idx, map_page, map_range, virtual_to_real, phys2virt,
  invalidate,
}
use kinnow_os.Virtual.Entries.{invalidate-inside, segment_invalid-marked}
use kinnow_os.Virtual.Translate.{map_page-done, IsMapped, WellFormed, IsFree}
use kinnow_os.Virtual.Pages.{page_of, map_page_lem}
use kinnow_os.Virtual.Range.{IsSupply, map_range_lem}
use kinnow_os.Virtual.Reverse.{ShownAt, phys2virt_lem}
use kinnow_os.Virtual.New.{create_lem}

-- Storage that is all ones, and a table of segments in it.
abbrev ones : Entries
ones a = 2 ^ 64 - 1

abbrev segtab : ℕ
segtab = 0x10000

abbrev space : Entries
space = invalidate 0x20 segtab 2048 ones

abbrev tables : ℕ → ℕ
tables i = 0x20000 + 0x1000 * i

space-WellFormed : WellFormed segtab space
space-WellFormed = (create_lem segtab ones (omega arith)).2

space-invalid : (i : ℕ) → i < 2048 → segment_invalid (space (segtab + 8 * i)) ≡ true
space-invalid i h =
    (rw (invalidate-inside 0x20 segtab 2048 ones i h) (segment_invalid-marked (2 ^ 64 - 1)))

table-IsFree : (t : ℕ) → t % 2048 ≡ 0 → t < 2 ^ 32 → 0x20000 ≤ t → IsFree segtab space t
table-IsFree t al low above = record {
  aligned = al;
  low = low;
  table = (omega arith, inr (omega arith));
  unused = λ i h good. cc (space-invalid i h, good);
}

space-IsSupply : IsSupply segtab tables space 0 2
space-IsSupply = record {
  apart = λ j k hj hk ne e. ne (omega arith);
  free = λ j above below. table-IsFree (tables j) (omega arith) (omega arith) (omega arith);
}

-- Two pages at 1 MiB less one page: the range needs two tables.
map_range_lem_example :
    WellFormed segtab (map_range segtab (λ i. some (tables i)) 0xff000 0x5000 0 0x1800 space).1
    × ((w : ℕ)
        → 0xff000 ≤ w
        → w < 0xff000 + 0x1800
        → virtual_to_real segtab
            (map_range segtab (λ i. some (tables i)) 0xff000 0x5000 0 0x1800 space).1
            w
          ≡ 0x5000 + (w - 0xff000))
    × ((w : ℕ)
        → w < 2 ^ 31
        → (w < 0xff000) ⊎ (0xff000 + (0x1800 + 4095) / 4096 * 4096 ≤ w)
        → IsMapped segtab space (segment_idx w)
        → virtual_to_real segtab
            (map_range segtab (λ i. some (tables i)) 0xff000 0x5000 0 0x1800 space).1
            w
          ≡ virtual_to_real segtab space w)
map_range_lem_example =
    map_range_lem segtab tables 0xff000 0x5000 0 (omega arith) (omega arith) (omega arith) 0x1800
      space space-WellFormed space-IsSupply (omega arith) (omega arith)

map_page-done_example : (map_page segtab (some 0x20000) 0x1234 0x100005000 0x200 space).0 ≡ pos 0
map_page-done_example = map_page-done segtab 0x20000 space 0x1234 0x100005000 0x200 space-WellFormed

-- A frame above 4 GiB.
map_page_lem_example :
    WellFormed segtab (map_page segtab (some 0x20000) 0x1234 0x100005000 0x200 space).1
    × ((w : ℕ)
        → page_of w ≡ page_of 0x1234
        → virtual_to_real segtab (map_page segtab (some 0x20000) 0x1234 0x100005000 0x200 space).1 w
          ≡ 0x100005000 % 2 ^ 32 + w % 4096)
    × ((w : ℕ)
        → page_of w ≢ page_of 0x1234
        → IsMapped segtab space (segment_idx w) ⊎ (segment_idx w ≢ segment_idx 0x1234)
        → virtual_to_real segtab (map_page segtab (some 0x20000) 0x1234 0x100005000 0x200 space).1 w
          ≡ virtual_to_real segtab space w)
map_page_lem_example =
    map_page_lem segtab (some 0x20000) space 0x1234 0x100005000 0x200 space-WellFormed
      (table-IsFree 0x20000 (omega arith) (omega arith) (omega arith)) (omega arith) (omega arith)
      map_page-done_example

abbrev mapped : Entries
mapped = (map_page segtab (some 0x20000) 0x1234 0x100005000 0x200 space).1

phys2virt_lem_example :
    ((phys2virt segtab mapped 0x5000 ≡ 0)
      ⊎ (virtual_to_real segtab mapped (phys2virt segtab mapped 0x5000) ≡ 0x5000))
    × ((phys2virt segtab mapped 0x5000 ≡ 0) ↔ (
        ShownAt segtab mapped 0x5000 0 0
        ⊎ ((i k : ℕ) → i < 2048 → k < 256 → ¬ ShownAt segtab mapped 0x5000 i k)))
phys2virt_lem_example = phys2virt_lem segtab mapped 0x5000 (map_page_lem_example.0)
