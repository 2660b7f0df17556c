-- ===== src/Real/Tests.antt =====
-- Runs of the allocator on a small region.
use kinnow_os.Prelude.{◌%◌, ◌≡◌, refl, true, zero, suc, none, some, [], ◌∷◌, arith}
use kinnow_os.Real.{not_present, free, used, block, Heap, Region, Stats, create_region, alloc}
use kinnow_os.Real.Spec.{total}
use kinnow_os.Real.Chain.{Chain, end, link, segs}
use kinnow_os.Real.Align.{IsSafe-unaligned}
use kinnow_os.Real.Alloc.{Ready, Serves, alloc_lem}
use kinnow_os.Real.Release.{merge_ahead, free_walk}
use kinnow_os.Real.Release.Free.{Tiled, free_walk_lem}
use kinnow_os.Real.Release.Coalesce.{coalesce, Merged, merge_ahead_lem}
use kinnow_os.Storage.Memory.{Memory}

abbrev blank : Heap
blank k = block not_present 0 none

abbrev no_stats : Stats
no_stats = record { free_size = 0; used_size = 0; n_regions = 0 }

-- Four descriptors, of which two are in use.
abbrev memory : Region
memory = create_region 4096 24576 blank

memory-Chain : Chain memory.heap (some 0) (0 ∷ 1 ∷ [])
unfolding create_region
memory-Chain = link refl refl refl (link refl refl refl end)

memory-Ready : Ready 3 100 0 memory
unfolding create_region
memory-Ready = record {
  blocks = 0 ∷ 1 ∷ [];
  chain = memory-Chain;
  short = omega arith;
  small = omega arith;
  safe = IsSafe-unaligned 100 4096 _;
  head_used = refl;
  spare1 = 2;
  spare2 = 3;
  apart = ground arith;
  spare1-IsSpare = ground arith;
  spare2-IsSpare = ground arith;
}

alloc_lem_example : Serves 100 0 (memory ∷ []) (alloc 3 (memory ∷ []) 100 0)
alloc_lem_example = alloc_lem 3 100 0 (memory ∷ []) (λ present. memory-Ready, record {})

-- Four blocks of 8 bytes.
abbrev row : Heap
row (suc zero) = block free 8 (some 2)
row (suc (suc zero)) = block free 8 (some 3)
row (suc (suc (suc zero))) = block used 8 (some 4)
row (suc (suc (suc (suc zero)))) = block free 8 none
row _ = block not_present 0 none

abbrev row_bytes : Memory
row_bytes a = a % 256

row-Chain : Chain row (some 1) (1 ∷ 2 ∷ 3 ∷ 4 ∷ [])
row-Chain =
    link refl refl refl (link refl refl refl (link refl refl refl (link refl refl refl end)))

merge_ahead_lem_example :
    (g : Heap) × (merge_ahead 5 row (some 1) free ≡ some g)
    × Merged row (some 1) (1 ∷ 2 ∷ 3 ∷ 4 ∷ []) (coalesce free (segs row (1 ∷ 2 ∷ 3 ∷ 4 ∷ []))) g
merge_ahead_lem_example = merge_ahead_lem free 5 row row-Chain (omega arith) (omega arith)

free_walk_lem_example :
    (g : Heap) × (free_walk 6 row none (some 1) 4096 4112 ≡ some (true, g))
    × Tiled row (some 1) (1 ∷ 2 ∷ 3 ∷ 4 ∷ []) (total (segs row (1 ∷ 2 ∷ 3 ∷ 4 ∷ []))) g
free_walk_lem_example =
    free_walk_lem 6 row 4096 4112 row-Chain (omega arith) (omega arith) (omega arith) (omega arith)
