-- ===== src/Real/Counts.antt =====
-- `get_stats` counts the bytes of the blocks.
use kinnow_os.Prelude.{ℕ, zero, suc, ◌+◌, ◌^◌, ◌<◌, ◌≡◌, refl, Option, some, List, arith, length}
use kinnow_os.Real.{Heap, Stats, count_block, count_blocks}
use kinnow_os.Real.Spec.{total, in_use}
use kinnow_os.Real.Chain.{Chain, end, link, segs}

-- Over a chain, the loop adds the bytes in use to `used_size` and the others to `free_size`, while
-- the sums stay below 2 ^ 64.
pub count_blocks_lem :
    (h : Heap) (fuel : ℕ) {b : Option ℕ} {is : List ℕ} (s : Stats)
    → Chain h b is
    → length is < fuel
    → s.free_size + s.used_size + total (segs h is) < 2 ^ 64
    → (s' : Stats) × (count_blocks fuel h b s ≡ some s')
      × (s'.used_size ≡ s.used_size + in_use (segs h is))
      × (s'.free_size + s'.used_size ≡ s.free_size + s.used_size + total (segs h is))
      × (s'.n_regions ≡ s.n_regions)
unfolding count_blocks count_block
count_blocks_lem h zero s chain more small = absurd (omega arith)
count_blocks_lem h (suc fuel) s end more small = (s, refl, omega arith, omega arith, refl)
count_blocks_lem h (suc fuel) s (link {i} {is = is} next here out rest) more small = rw next (
    ground (
      arith,
      count_blocks_lem h fuel (count_block (h i).flags (h i).size s) rest (omega arith)
          (ground arith),
    ))
