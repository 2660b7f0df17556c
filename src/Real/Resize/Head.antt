-- ===== src/Real/Resize/Head.antt =====
-- The first block decides.
use kinnow_os.Prelude.{
  ℕ, suc, ◌+◌, ◌<◌, ◌≤◌, ◌≡◌, refl, inl, inr, true, false, not, ◌||◌, ◌&&◌, some, List, ◌∷◌, arith,
  ltb, leb, ◌==◌, if◌then◌else◌, Bool-cases,
}
use kinnow_os.Real.{Region}
use kinnow_os.Real.Resize.{result, renew, realloc, realloc_regions, realloc_walk}
use kinnow_os.Storage.Memory.{Memory}

-- For a pointer into the first region, behind its first block, `realloc` returns the base of the
-- region if the size asked for is that of the first block, and else always allocates anew: no block
-- grows or stays in its place.
pub realloc_lem :
    (fuel : ℕ) (r : Region) (rs : List Region) (m : Memory) (ptr size align : ℕ)
    → r.present ≡ true
    → 0 < size
    → 0 < ptr
    → r.base + (r.heap 0).size ≤ ptr
    → ptr ≤ r.base + r.size
    → realloc (suc fuel) (r ∷ rs) m ptr size align ≡ (
        if size == (r.heap 0).size
        then result (some r.base) (r ∷ rs) m
        else renew (suc fuel) (r ∷ rs) m ptr size align)
unfolding realloc realloc_regions realloc_walk
realloc_lem fuel r rs m ptr size align present some_size some_ptr behind inside =
    let s0 : size == 0 ≡ false = ground arith in
    let p0 : ptr == 0 ≡ false = ground arith in
    let low : ltb ptr r.base ≡ false = ground arith in
    let high : ltb (r.base + r.size) ptr ≡ false = ground arith in
    let tried : not r.present || (ltb ptr r.base || ltb (r.base + r.size) ptr) ≡ false =
      ground (arith, present, low, high) in
    let away : ltb ptr (r.base + (r.heap 0).size) ≡ false = ground arith in
    elim (Bool-cases (size == (r.heap 0).size)) [
      | inl same ↦ simp (s0, p0, tried, same) refl
      | inr other ↦
          let miss : ltb (r.heap 0).size size
                && (leb r.base ptr && ltb ptr (r.base + (r.heap 0).size))
              ≡ false =
            ground (arith, away) in
          simp (s0, p0, tried, other, miss) refl
    ]
