-- ===== src/Real/Init.antt =====
-- A new region.
use kinnow_os.Prelude.{ℕ, ◌+◌, ◌*◌, ◌/◌, ◌^◌, ◌≤◌, ◌<◌, ◌≡◌, refl, some, [], ◌∷◌, arith}
use kinnow_os.Real.{Heap, create_region}
use kinnow_os.Real.Spec.{total, in_use}
use kinnow_os.Real.Chain.{Chain, end, link, segs}

-- The blocks of a new region of less than 2 ^ 64 bytes are the heap, in use, and the rest, and
-- together they are as long as the region.
pub create_region_lem :
    (base size : ℕ) (heap : Heap)
    → (24 ≤ size) × (size < 2 ^ 64)
    → let h = (create_region base size heap).heap in
      Chain h (some 0) (0 ∷ 1 ∷ [])
      × (total (segs h (0 ∷ 1 ∷ [])) ≡ size)
      × (in_use (segs h (0 ∷ 1 ∷ [])) ≡ (size / 8192 + 1) * 24)
unfolding create_region
create_region_lem base size heap (least, most) =
    (link refl refl refl (link refl refl refl end), omega arith, omega arith)
