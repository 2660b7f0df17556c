-- ===== src/Real/Align.antt =====
-- The test of `alloc` for the room that an alignment takes.
use kinnow_os.Prelude.{
  ℕ, ◌+◌, ◌-◌, ◌*◌, ◌/◌, ◌%◌, ◌^◌, ◌≤◌, ◌<◌, ◌≡◌, ap, ◌∙◌, false, List, [], ◌∷◌, arith, ◌==◌,
}
use native.Mathlib.Nat.{div-add-mod', mod-eq_of_lt, mul-add-mod_self_right}
use kinnow_os.Real.{free, left_size, is_unfit}
use kinnow_os.Real.Spec.{Seg, IsSafe, start}

-- Without an alignment the test is right for every block.
pub IsSafe-unaligned : (size cur : ℕ) (bs : List Seg) → IsSafe size 0 cur bs
unfolding IsSafe start is_unfit
IsSafe-unaligned size cur [] = record {}
IsSafe-unaligned size cur (b ∷ bs) = (λ fit. ground arith, IsSafe-unaligned size (cur + b.size) bs)

-- A free block whose bytes reach the last multiple of `align` in front of it but not the next one
-- behind passes the test, and its remainder wraps around: the allocation would begin in front of
-- the block.
pub left_size-wraps :
    (cur bsize size align : ℕ)
    → cur < 2 ^ 64
    → align < 2 ^ 64
    → 0 < cur % align
    → size + cur % align ≤ bsize
    → bsize + cur % align < size + align
    → (is_unfit free bsize cur size align ≡ false)
      × (left_size cur bsize size align ≡ 2 ^ 64 - cur % align)
unfolding is_unfit left_size
left_size-wraps cur bsize size align cur_small align_small off passes short =
    let r = cur % align in
    let d = bsize - size in
    let floor : cur / align * align + r ≡ cur = div-add-mod' cur align in
    let top : cur + bsize - size ≡ cur / align * align + (r + d) = omega arith in
    let over : (cur + bsize - size) % align ≡ r + d =
      ap (λ x. x % align) top
      ∙ mul-add-mod_self_right (cur / align) align (r + d)
      ∙ mod-eq_of_lt (omega arith) in
    let nz : align == 0 ≡ false = ground arith in (ground arith, rw (nz, over) (omega arith))
