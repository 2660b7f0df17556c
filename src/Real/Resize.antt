-- ===== src/Real/Resize.antt =====
-- kernel/real.cxx, real_storage::realloc. The blocks lie in the byte memory `Memory`; the
-- descriptors are kept apart from it, as in the allocator.
pub mod Head
use kinnow_os.Prelude.{
  ℕ, zero, suc, ◌+◌, ◌-◌, ◌%◌, ◌^◌, Bool, true, false, not, ◌||◌, ◌&&◌, Option, none, some, List,
  [], ◌∷◌, ltb, leb, ◌==◌, if◌then◌else◌,
}
use kinnow_os.Real.{
  Flag, not_present, free, Block, Heap, Region, put, is_free, sub64, alloc, allocated, no_room,
  crashed, starved,
}
use kinnow_os.Real.Release.{free_regions}
use kinnow_os.Storage.Memory
use kinnow_os.Storage.Memory.{Memory}

-- What the walk over the blocks of a region ends with: the block stays, or slides down from an
-- address by some bytes, or the storage is allocated anew, or `nullptr` is returned.
pub data Decision : Type 0 where
  stay : ℕ → Heap → Decision
  slide : ℕ → ℕ → ℕ → Heap → Decision
  anew give_up past_end out_of_fuel : Decision

-- The next block of a block that grows by `rem`.
pub take_next : Heap → ℕ → ℕ → ℕ → Heap
unfolding put
take_next h b n rem =
    let g = put h n (record (h n) { size = sub64 (h n).size rem }) in
    let g' = put g b (record (g b) { size = ((g b).size + rem) % 2 ^ 64 }) in
    let g'' = put g' n (record (g' n) { flags = not_present }) in
    if (g' n).size == 0 then put g'' b (record (g'' b) { next = (g'' n).next }) else g'

-- The previous block gives `rem` bytes to a block at `cur`.
pub take_previous : Heap → ℕ → ℕ → ℕ → ℕ → Decision
unfolding put
take_previous h b p cur rem =
    let g = put h p (record (h p) { size = sub64 (h p).size rem }) in
    let g' = put g b (record (g b) { size = ((g b).size + rem) % 2 ^ 64 }) in
    if ltb rem (h p).size then slide cur rem (h b).size g' else give_up

abbrev pub fits : Heap → Option ℕ → ℕ → ℕ → Bool
fits h none rem align = false
fits h (some n) rem align = (align == 0) && (is_free (h n).flags && leb rem (h n).size)

-- A block `b` at `cur`, which holds the pointer, is to grow to `size`.
pub expand : Heap → Option ℕ → ℕ → ℕ → ℕ → ℕ → Decision
expand h prev b cur size align =
    let rem = size - (h b).size in
    let from_previous : Decision = elim prev [
      | none ↦ anew
      | some p ↦ take_previous h b p cur rem
    ] in
    let from_next : Decision = elim (h b).next [
      | none ↦ anew
      | some n ↦ stay cur (take_next h b n rem)
    ] in
    if fits h (h b).next rem align
    then from_next
    else if fits h prev rem align
    then from_previous
    else anew

pub realloc_walk : ℕ → Heap → Option ℕ → Option ℕ → ℕ → ℕ → ℕ → ℕ → Decision
realloc_walk zero h prev b cur ptr size align = out_of_fuel
realloc_walk (suc fuel) h prev none cur ptr size align = past_end
realloc_walk (suc fuel) h prev (some b) cur ptr size align =
    if size == (h b).size
    then stay cur h
    else if ltb (h b).size size && (leb cur ptr && ltb ptr (cur + (h b).size))
    then expand h prev b cur size align
    else anew

-- The result of `realloc`, `none` for `nullptr`, with the regions and the memory afterwards.
pub data Reallocation : Type 0 where
  result : Option ℕ → List Region → Memory → Reallocation
  stuck : Reallocation

-- A new block, the move of the bytes and the release of the old block.
pub renew : ℕ → List Region → Memory → ℕ → ℕ → ℕ → Reallocation
renew fuel rs m ptr size align = elim (alloc fuel rs size align) [
  | no_room ↦ result none rs m
  | crashed ↦ stuck
  | starved ↦ stuck
  | allocated p rs' ↦ elim (free_regions fuel rs' ptr) [
    | none ↦ stuck
    | some rs'' ↦ result (some p) rs'' (Memory.move m p ptr size)
  ]
]

-- The regions of which the pointer is tried, in front of `all` of them `done`.
pub realloc_regions :
    ℕ → List Region → List Region → (List Region → List Region) → Memory → ℕ → ℕ → ℕ → Reallocation
realloc_regions fuel all [] done m ptr size align = result none all m
realloc_regions fuel all (r ∷ rs) done m ptr size align =
    let later = realloc_regions fuel all rs (λ tail. done (r ∷ tail)) m ptr size align in
    let with_heap = λ (h : Heap). done (record r { heap = h } ∷ rs) in
    let skip = not r.present || (ltb ptr r.base || ltb (r.base + r.size) ptr) in
    if skip then later else elim (realloc_walk fuel r.heap none (some 0) r.base ptr size align) [
      | stay p h ↦ result (some p) (with_heap h) m
      | slide p rem n h ↦ result (some (p - rem)) (with_heap h) (Memory.move m (p - rem) p n)
      | anew ↦ renew fuel all m ptr size align
      | give_up ↦ result none all m
      | past_end ↦ later
      | out_of_fuel ↦ stuck
    ]

-- `realloc`; the null pointer is 0.
pub realloc : ℕ → List Region → Memory → ℕ → ℕ → ℕ → Reallocation
realloc fuel rs m ptr size align =
    let fresh : Reallocation = elim (alloc fuel rs size align) [
      | no_room ↦ result none rs m
      | crashed ↦ stuck
      | starved ↦ stuck
      | allocated p rs' ↦ result (some p) rs' m
    ] in
    if size == 0
    then result none rs m
    else if ptr == 0
    then fresh
    else realloc_regions fuel rs rs (λ tail. tail) m ptr size align
