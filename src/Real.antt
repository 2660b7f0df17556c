-- ===== src/Real.antt =====
-- kernel/real.hxx and kernel/real.cxx: the allocator of real storage. A region keeps an array of
-- block descriptors at its base, the heap, and the blocks tile the region in the order of their
-- `next` pointers. A descriptor is named by its index, the number in which the pointers
-- `&heap[i]` differ; a descriptor takes 24 bytes and `size_t` has 64 bits, as on a 64-bit target.
-- The mutex of a region is not modelled: a call runs alone. The assertions of `debug_assert` are
-- compiled out of a release build.
pub mod Spec
pub mod Chain
pub mod Slots
pub mod Carve
pub mod Walk
pub mod Alloc
pub mod Align
pub mod Counts
pub mod Init
pub mod Release
pub mod Resize
pub mod Tests
use kinnow_os.Prelude.{
  ℕ, zero, suc, ◌+◌, ◌-◌, ◌*◌, ◌/◌, ◌%◌, ◌^◌, Bool, true, false, not, ◌&&◌, ◌||◌, Option, none,
  some, List, [], ◌∷◌, ltb, leb, ◌==◌, if◌then◌else◌,
}

pub data Flag : Type 0 where
  not_present free used : Flag

pub record Block : Type 0 where
  pub flags : Flag
  pub size : ℕ
  pub next : Option ℕ

abbrev pub block : Flag → ℕ → Option ℕ → Block
block f s n = record { flags = f; size = s; next = n }

abbrev pub Heap : Type 0
Heap = ℕ → Block

pub record Region : Type 0 where
  pub present : Bool
  pub base : ℕ
  pub size : ℕ
  pub heap : Heap

-- `sizeof(real_storage::block)`
abbrev pub unit : ℕ
unit = 24

-- `a - b` in `size_t`
abbrev pub sub64 : ℕ → ℕ → ℕ
sub64 a b = (a + 2 ^ 64 - b) % 2 ^ 64

abbrev pub is_not_present : Flag → Bool
is_not_present not_present = true
is_not_present _ = false

abbrev pub is_free : Flag → Bool
is_free free = true
is_free _ = false

abbrev pub is_used : Flag → Bool
is_used used = true
is_used _ = false

-- A store into one descriptor.
pub put : Heap → ℕ → Block → Heap
put h i b k = if k == i then b else h k

-- The loop of `block::create` over the heap, from index `i` on.
pub find_slot : Heap → ℕ → ℕ → Option ℕ
find_slot h i zero = none
find_slot h i (suc left) =
    let rest = find_slot h (i + 1) left in if is_not_present (h i).flags then some i else rest

-- `storage::fill` with zeros over `n` descriptors.
pub clear : Heap → ℕ → ℕ → Heap
clear h i n k = if leb i k && ltb k (i + n) then block not_present 0 none else h k

-- The growth of the heap by 32 descriptors at the cost of the second block.
pub grow : Heap → ℕ → Flag → Option ℕ → Option (ℕ × Heap)
unfolding put clear
grow h size flags next =
    let n_blocks = (h 0).size / unit in
    let h0 = put h 0 (record (h 0) { size = (h 0).size + unit * 32 }) in
    let h1 = put h0 1 (record (h0 1) { size = (h0 1).size - unit * 32 }) in
    let h2 = clear h1 n_blocks 32 in
    if not (is_free (h 1).flags) || ltb (h 1).size (unit * 32)
    then none
    else some (n_blocks, put h2 n_blocks (block flags size next))

-- `block::create`; `none` is `nullptr`.
pub create : Heap → ℕ → Flag → Option ℕ → Option (ℕ × Heap)
create h size flags next = elim (find_slot h 0 ((h 0).size / unit)) [
  | some i ↦ some (i, put h i (block flags size next))
  | none ↦ grow h size flags next
]

pub data Outcome : Type 0 where
  returned : ℕ → Heap → Outcome
  not_found fault out_of_fuel : Outcome

-- The size of the remainder in front of the allocation, from the address and size of the block.
pub left_size : ℕ → ℕ → ℕ → ℕ → ℕ
left_size cur bsize size align =
    if align == 0
    then sub64 bsize size
    else sub64 (cur + bsize - size - (cur + bsize - size) % align) cur

-- The block `b` at `cur` becomes the allocation, the rest behind it a free block. Where no
-- descriptor is to be had, `next` is cut off.
pub cut_right : Heap → ℕ → ℕ → ℕ → Outcome
unfolding put
cut_right h b cur size =
    let right = sub64 (h b).size size in
    let mark = λ (g : Heap). returned cur (put g b (record (g b) { flags = used })) in
    let shrink = λ (g : Heap) (next : Option ℕ).
      mark (put g b (record (g b) { size = sub64 (g b).size right; next = next })) in
    if right == 0 then mark h else elim (create h right free (h b).next) [
      | none ↦ shrink h none
      | some (k, g) ↦ shrink g (some k)
    ]

-- The block `b` keeps its first `left` bytes, and the allocation is cut from a new block behind it.
pub split_left : Heap → ℕ → ℕ → ℕ → ℕ → Outcome
unfolding put
split_left h b left cur size =
    let g = put h b (record (h b) { size = left; flags = free }) in
    elim (create g (sub64 (h b).size left) used (h b).next) [
      | none ↦ fault
      | some (j, g') ↦
          cut_right (put g' b (record (g' b) { next = some j })) j ((cur + left) % 2 ^ 64) size
    ]

-- The body of the loop for a block that is big enough.
pub carve : Heap → ℕ → ℕ → ℕ → ℕ → Outcome
carve h b cur size align =
    let left = left_size cur (h b).size size align in
    if left == 0 then cut_right h b cur size else split_left h b left cur size

-- The tests that send the loop to the next block.
pub is_unfit : Flag → ℕ → ℕ → ℕ → ℕ → Bool
is_unfit flags bsize cur size align =
    is_used flags || ((not (align == 0) && ltb bsize (size + cur % align)) || ltb bsize size)

-- The walk over the blocks of a region, on fuel.
pub walk : ℕ → Heap → Option ℕ → ℕ → ℕ → ℕ → Outcome
walk zero h s cur size align = out_of_fuel
walk (suc fuel) h none cur size align = not_found
walk (suc fuel) h (some b) cur size align =
    let rest = walk fuel h (h b).next (cur + (h b).size) size align in
    if is_unfit (h b).flags (h b).size cur size align then rest else carve h b cur size align

-- What `alloc` gives: the address and the regions afterwards, or no room.
pub data Allocation : Type 0 where
  allocated : ℕ → List Region → Allocation
  no_room crashed starved : Allocation

-- One region of the loop of `alloc`, with the outcome of the regions behind it.
pub try_region : Region → List Region → Outcome → Allocation → Allocation
try_region r rs (returned p h) rest = allocated p (record r { heap = h } ∷ rs)
try_region r rs fault rest = crashed
try_region r rs out_of_fuel rest = starved
try_region r rs not_found (allocated p rs') = allocated p (r ∷ rs')
try_region r rs not_found rest = rest

-- `alloc`; the head of every region is its descriptor 0.
pub alloc : ℕ → List Region → ℕ → ℕ → Allocation
alloc fuel [] size align = no_room
alloc fuel (r ∷ rs) size align =
    let rest = alloc fuel rs size align in
    let skip = not r.present || ltb r.size size in
    try_region r rs (if skip then not_found else walk fuel r.heap (some 0) r.base size align) rest

-- `region::create` for one entry of the table.
pub create_region : ℕ → ℕ → Heap → Region
unfolding put
create_region base size heap =
    let n_blocks = size / 8192 + 1 in
    let h0 =
      λ (k : ℕ). if ltb k n_blocks then record (heap k) { flags = not_present } else heap k in
    let h1 = put h0 0 (block used (n_blocks * unit) (some 1)) in
    record {
      present = true;
      base = base;
      size = size;
      heap = put h1 1 (block free (sub64 size (n_blocks * unit)) none);
    }

-- `get_stats`, `real_storage::stats` without the count of regions in one region.
pub record Stats : Type 0 where
  pub free_size : ℕ
  pub used_size : ℕ
  pub n_regions : ℕ

pub count_block : Flag → ℕ → Stats → Stats
count_block not_present size s = s
count_block free size s = record s { free_size = (s.free_size + size) % 2 ^ 64 }
count_block used size s = record s { used_size = (s.used_size + size) % 2 ^ 64 }

-- The loop of `get_stats` over the blocks of a region, on fuel.
pub count_blocks : ℕ → Heap → Option ℕ → Stats → Option Stats
count_blocks zero h b s = none
count_blocks (suc fuel) h none s = some s
count_blocks (suc fuel) h (some b) s =
    count_blocks fuel h (h b).next (count_block (h b).flags (h b).size s)

pub count_regions : ℕ → List Region → Stats → Option Stats
count_regions fuel [] s = some s
count_regions fuel (r ∷ rs) s =
    elim (if r.present
      then count_blocks fuel r.heap (some 0) (record s { n_regions = s.n_regions + 1 })
      else some s) [ none ↦ none | some s' ↦ count_regions fuel rs s' ]

pub get_stats : ℕ → List Region → Option Stats
get_stats fuel rs = count_regions fuel rs (record { free_size = 0; used_size = 0; n_regions = 0 })
