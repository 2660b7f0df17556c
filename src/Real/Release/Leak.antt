-- ===== src/Real/Release/Leak.antt =====
-- The loop of `merge` behind the first pair.
use kinnow_os.Prelude.{ℕ, ◌+◌, ◌^◌, ◌<◌, ◌≡◌, refl, Option, some, List, [], ◌∷◌, arith, length}
use kinnow_os.Real.{free, used, Heap}
use kinnow_os.Real.Spec.{seg, total, in_use}
use kinnow_os.Real.Chain.{Chain, segs}
use kinnow_os.Real.Release.{same_flag, merge_ahead}
use kinnow_os.Real.Release.Coalesce.{coalesce, merge_ahead_lem}

coalesce_four :
    (a n u v : ℕ)
    → coalesce free (seg free a ∷ seg free n ∷ seg used u ∷ seg free v ∷ [])
      ≡ seg free (a + n) ∷ seg used (u + v) ∷ []
unfolding coalesce same_flag
coalesce_four a n u v = refl

-- Two free blocks, a block in use and a free block: the loop of `merge` gives the last block to the
-- one in use, so that `v` bytes more are in use, if the fuel exceeds the chain and its bytes are
-- less than 2 ^ 64.
pub merge_ahead-leaks :
    (fuel a n u v : ℕ) (h : Heap) {s : Option ℕ} {is : List ℕ}
    → Chain h s is
    → length is < fuel
    → segs h is ≡ seg free a ∷ seg free n ∷ seg used u ∷ seg free v ∷ []
    → a + n + u + v < 2 ^ 64
    → (g : Heap) × (is' : List ℕ) × (merge_ahead fuel h s free ≡ some g)
      × Chain g s is'
      × (total (segs g is') ≡ total (segs h is))
      × (in_use (segs g is') ≡ in_use (segs h is) + v)
merge_ahead-leaks fuel a n u v h {is = is} chain more shows small =
    let (g, r, m) = merge_ahead_lem free fuel h chain more (rw shows (omega arith)) in
    let after : segs g m.is' ≡ seg free (a + n) ∷ seg used (u + v) ∷ [] =
      rw (m.shows, shows) (coalesce_four a n u v) in
    (g, m.is', r, m.chain, rw (after, shows) (omega arith), rw (after, shows) (omega arith))
