-- ===== src/Real/Release.antt =====
-- kernel/real.cxx: block::merge and real_storage::free. The lock of a region is not modelled.
pub mod Coalesce
pub mod Leak
pub mod Free
use kinnow_os.Prelude.{
  ℕ, zero, suc, ◌+◌, ◌%◌, ◌^◌, Bool, true, false, not, ◌||◌, ◌&&◌, Option, none, some, List, [],
  ◌∷◌, ltb, leb, ◌==◌, if◌then◌else◌,
}
use kinnow_os.Real.{Flag, not_present, free, used, Block, Heap, Region, put}

pub same_flag : Flag → Flag → Bool
same_flag not_present not_present = true
same_flag free free = true
same_flag used used = true
same_flag _ _ = false

-- The block `b` takes in the block `n`, which leaves the heap.
pub absorb : Heap → ℕ → ℕ → Heap
unfolding put
absorb h b n =
    let g = put h n (record (h n) { flags = not_present }) in
    put g b (record (g b) { size = ((g b).size + (g n).size) % 2 ^ 64; next = (g n).next })

-- The loop of `merge`, on fuel.
pub merge_ahead : ℕ → Heap → Option ℕ → Flag → Option Heap
merge_ahead zero h b f = none
merge_ahead (suc fuel) h none f = some h
merge_ahead (suc fuel) h (some b) f = elim (h b).next [
  | none ↦ some h
  | some n ↦
      let g = absorb h b n in
      let rest = merge_ahead fuel g (g b).next f in if same_flag (h n).flags f then rest else some h
]

pub merge : ℕ → Heap → Option ℕ → ℕ → Flag → Option Heap
merge fuel h none b f = merge_ahead fuel h (some b) f
merge fuel h (some p) b f =
    let back = merge_ahead fuel (absorb h p b) (some p) f in
    let ahead = merge_ahead fuel h (some b) f in if same_flag (h p).flags f then back else ahead

-- The walk of `free` over the blocks of a region: the heap afterwards and whether `free` returns.
pub free_walk : ℕ → Heap → Option ℕ → Option ℕ → ℕ → ℕ → Option (Bool × Heap)
unfolding put
free_walk zero h prev b cur ptr = none
free_walk (suc fuel) h prev none cur ptr = some (false, h)
free_walk (suc fuel) h prev (some b) cur ptr =
    let rest = free_walk fuel h (some b) (h b).next (cur + (h b).size) ptr in
    let merged = merge fuel (put h b (record (h b) { flags = free })) prev b free in
    let freed : Option (Bool × Heap) = elim merged [ none ↦ none | some g ↦ some (true, g) ] in
    if leb cur ptr && ltb ptr (cur + (h b).size)
    then freed
    else if ltb ptr cur
    then some (true, h)
    else rest

-- `free` over the table of regions.
pub free_regions : ℕ → List Region → ℕ → Option (List Region)
free_regions fuel [] ptr = some []
free_regions fuel (r ∷ rs) ptr =
    let skip = not r.present || (ltb ptr r.base || ltb (r.base + r.size) ptr) in
    let walked : Option (Bool × Heap) =
      if skip then some (false, r.heap) else free_walk fuel r.heap none (some 0) r.base ptr in
    let later = free_regions fuel rs ptr in
    elim walked [
      | none ↦ none
      | some (returns, h) ↦
          if returns
          then some (record r { heap = h } ∷ rs)
          else elim later [ none ↦ none | some rs' ↦ some (record r { heap = h } ∷ rs') ]
    ]
