-- ===== src/Real/Carve.antt =====
-- Cutting one block, where the heap has two descriptors to spare: the chain afterwards shows the
-- pieces of the specification, and nothing else has changed.
use kinnow_os.Prelude.{
  ℕ, ◌+◌, ◌-◌, ◌%◌, ◌^◌, ◌≤◌, ◌<◌, ◌≡◌, ◌≢◌, refl, ◌∙◌, inl, inr, true, false, Option, some, List,
  ◌∷◌, ◌++◌, arith, ◌==◌, Bool-cases,
}
use kinnow_os.Real.{
  free, used, is_used, is_not_present, block, Heap, sub64, put, create, Outcome, returned,
  left_size, cut_right, split_left, carve, is_unfit,
}
use kinnow_os.Real.Spec.{Seg, seg, gap, start, cut, fit_bounds}
use kinnow_os.Real.Chain.{has, Chain, link, view, segs, frame, frame-segs, not-has_of_not_present}
use kinnow_os.Real.Slots.{IsSpare, create_lem}

-- The outcome `o` of cutting in the chain `is` from `s`: it returns `p`, the chain then shows
-- `expected`, starts at the same descriptor, and only its descriptors and spare ones are written.
pub record Cut (h : Heap) (s : Option ℕ) (is : List ℕ) (expected : List Seg) (p : ℕ) (o : Outcome)
    : Type 0 where
  pub heap' : Heap
  pub is' : List ℕ
  pub returns : o ≡ returned p heap'
  pub chain : Chain heap' s is'
  pub shows : segs heap' is' ≡ expected
  pub same : (k : ℕ) → has k is ≡ false → is_not_present (h k).flags ≡ false → heap' k ≡ h k
  pub fresh : (k : ℕ) → has k is' ≡ true → has k is ≡ false → is_not_present (h k).flags ≡ true

module _ (h : Heap) (b : ℕ) (is : List ℕ) (cur size : ℕ) (here : is_not_present (h b).flags ≡ false)
    (out : has b is ≡ false) (rest : Chain h (h b).next is) (room : size ≤ (h b).size)
    (small : (h b).size < 2 ^ 64) where
  cut_right-Cut :
      (k : ℕ)
      → IsSpare h k
      → Cut h
          (some b)
          (b ∷ is)
          (seg used size ∷ (gap ((h b).size - size) ++ segs h is))
          cur
          (cut_right h b cur size)
  unfolding cut_right put
  cut_right-Cut k spare =
      let right = sub64 (h b).size size in
      let right_eq : right ≡ (h b).size - size = omega arith in
      elim (Bool-cases (right == 0)) [
        | inl none_left ↦
            let g = put h b (record (h b) { flags = used }) in
            let tail = frame-segs {h = h} {g = g} is (λ a m. ground arith) in
            record {
              heap' = g;
              is' = b ∷ is;
              returns = rw none_left;
              chain = link (ground arith) (ground arith) out (frame rest λ a m. ground arith);
              shows = ground (arith, tail);
              same = λ a m p. ground arith;
              fresh = λ a m m'. ground arith;
            }
        | inr some_left ↦
            let (j, made, spare_j) = create_lem h right free (h b).next k spare in
            let j_out = not-has_of_not_present j rest spare_j.1 in
            let ne : j ≢ b = λ e. ground (arith, spare_j, here) in
            let g = put h j (block free right (h b).next) in
            let g1 = put g b (record (g b) { size = sub64 (g b).size right; next = some j }) in
            let g2 = put g1 b (record (g1 b) { flags = used }) in
            let at_b : g2 b ≡ block used size (some j) = ground arith in
            let at_j : g2 j ≡ block free right (h b).next = ground arith in
            let tail = frame-segs {h = h} {g = g2} is (λ a m. ground arith) in
            record {
              heap' = g2;
              is' = b ∷ j ∷ is;
              returns = rw (some_left, made) refl;
              chain =
                  link (ground arith) (ground arith) (ground arith)
                    (link (ground arith) (ground arith) j_out (frame rest λ a m. ground arith));
              shows = ground (arith, tail, at_b, at_j);
              same = λ a m p. ground arith;
              fresh = λ a m m'. ground (arith, spare_j);
            }
      ]

-- The descriptor `j` has been taken for what lies behind the first `left` bytes of `b`.
module _ (h g : Heap) (b j k left : ℕ) (is : List ℕ) (cur size : ℕ)
    (heap_used : is_used (h 0).flags ≡ true) (not_used : is_used (h b).flags ≡ false)
    (here : is_not_present (h b).flags ≡ false) (out : has b is ≡ false)
    (rest : Chain h (h b).next is) (room : left + size ≤ (h b).size)
    (small : cur + (h b).size < 2 ^ 64) (spare_j : IsSpare h j) (spare_k : IsSpare h k)
    (apart : k ≢ j) (at_b : g b ≡ block free left (some j))
    (at_j : g j ≡ block used ((h b).size - left) (h b).next)
    (kept : (a : ℕ) → a ≢ b → a ≢ j → g a ≡ h a) where
  split-Cut :
      Cut h
        (some b)
        (b ∷ is)
        (seg free left ∷ seg used size ∷ (gap ((h b).size - left - size) ++ segs h is))
        (cur + left)
        (cut_right g j (cur + left) size)
  split-Cut =
      let j_b : j ≢ b = λ e. ground (arith, spare_j, here) in
      let k_b : k ≢ b = λ e. ground (arith, spare_k, here) in
      let j_out = not-has_of_not_present j rest spare_j.1 in
      let kept_is : (a : ℕ) → has a is ≡ true → g a ≡ h a = λ a m. kept a (λ e. cc) (λ e. cc) in
      let at_0 : g 0 ≡ h 0 = kept 0 (λ e. cc) (λ e. ground (arith, spare_j)) in
      let at_k : g k ≡ h k = kept k k_b apart in
      let rest_j : Chain g (g j).next is = rw at_j (frame rest kept_is) in
      let size_j : (g j).size ≡ (h b).size - left = rw at_j refl in
      let c =
        cut_right-Cut g j is (cur + left) size (rw at_j refl) j_out rest_j (omega arith)
          (omega arith) k (ground (arith, spare_k)) in
      let untouched : c.heap' b ≡ g b = c.same b (ground arith) (rw at_b refl) in
      let b_out : has b c.is' ≡ false = elim (Bool-cases (has b c.is')) [
        | inr absent ↦ absent
        | inl stands ↦ absurd (ground (arith, c.fresh b stands (ground arith), at_b))
      ] in
      record {
        heap' = c.heap';
        is' = b ∷ c.is';
        returns = c.returns;
        chain = link (rw (untouched, at_b) refl) (rw (untouched, at_b) refl) b_out c.chain;
        shows = rw (untouched, at_b, c.shows, size_j, frame-segs is kept_is) refl;
        same = λ a m p.
            let a_j : a ≢ j = λ e. ground (arith, spare_j) in
            let e = kept a (λ e. ground arith) a_j in c.same a (ground arith) (rw e p) ∙ e;
        fresh = λ a m m'. elim (Bool-cases (a == j)) [
          | inl e ↦ let same : a ≡ j = ground arith in rw same spare_j.1
          | inr ne ↦
              let e = kept a (λ e. ground arith) (λ e. ground arith) in
              rw (← e) (c.fresh a (ground arith) (ground arith))
        ];
      }

module _ (h : Heap) (b left : ℕ) (is : List ℕ) (cur size : ℕ)
    (heap_used : is_used (h 0).flags ≡ true) (not_used : is_used (h b).flags ≡ false)
    (here : is_not_present (h b).flags ≡ false) (out : has b is ≡ false)
    (rest : Chain h (h b).next is) (room : left + size ≤ (h b).size) (positive : 0 < left)
    (small : cur + (h b).size < 2 ^ 64) where
  abbrev first_half : Heap
  first_half = put h b (record (h b) { size = left; flags = free })

  split_left-Cut_at :
      (j k : ℕ)
      → create first_half ((h b).size - left) used (h b).next
        ≡ some (j, put first_half j (block used ((h b).size - left) (h b).next))
      → IsSpare h j
      → IsSpare h k
      → k ≢ j
      → Cut h
          (some b)
          (b ∷ is)
          (seg free left ∷ seg used size ∷ (gap ((h b).size - left - size) ++ segs h is))
          (cur + left)
          (split_left h b left cur size)
  unfolding split_left put
  split_left-Cut_at j k made spare_j spare_k apart =
      let size_eq : sub64 (h b).size left ≡ (h b).size - left = omega arith in
      let at : (cur + left) % 2 ^ 64 ≡ cur + left = omega arith in
      let j_b : j ≢ b = λ e. ground (arith, spare_j, here) in
      let g1 = put first_half j (block used ((h b).size - left) (h b).next) in
      let g = put g1 b (record (g1 b) { next = some j }) in
      rw (split_left, size_eq, made, at)
        (split-Cut h g b j k left is cur size heap_used not_used here out rest room small spare_j
          spare_k apart (ground arith) (ground arith) (λ a m m'. ground arith))

  split_left-Cut :
      (k1 k2 : ℕ)
      → k1 ≢ k2
      → IsSpare h k1
      → IsSpare h k2
      → Cut h
          (some b)
          (b ∷ is)
          (seg free left ∷ seg used size ∷ (gap ((h b).size - left - size) ++ segs h is))
          (cur + left)
          (split_left h b left cur size)
  unfolding put
  split_left-Cut k1 k2 apart spare1 spare2 =
      let b_pos : b ≢ 0 = λ e. cc in
      let k1_b : k1 ≢ b = λ e. ground (arith, spare1, here) in
      let g_spare : IsSpare first_half k1 = ground (arith, spare1) in
      let (j, made, spare_g) =
        create_lem first_half ((h b).size - left) used (h b).next k1 g_spare in
      let j_b : j ≢ b = λ e. ground (arith, spare_g) in
      let spare_j : IsSpare h j = ground (arith, spare_g) in
      elim (Bool-cases (k1 == j)) [
        | inl e ↦ split_left-Cut_at j k2 made spare_j spare2 (λ e'. ground (arith, apart))
        | inr ne ↦ split_left-Cut_at j k1 made spare_j spare1 (λ e'. ground arith)
      ]

module _ (h : Heap) (b : ℕ) (is : List ℕ) (cur size align : ℕ)
    (heap_used : is_used (h 0).flags ≡ true)
    (fit : is_unfit (h b).flags (h b).size cur size align ≡ false)
    (here : is_not_present (h b).flags ≡ false) (out : has b is ≡ false)
    (rest : Chain h (h b).next is) (low : cur ≤ start cur (h b).size size align)
    (small : cur + (h b).size < 2 ^ 64) where
  left_size_lem : left_size cur (h b).size size align ≡ start cur (h b).size size align - cur
  unfolding left_size start
  left_size_lem = elim (Bool-cases (align == 0)) [
    | inl z ↦
        let (free_now, room, top, aligned) = fit_bounds (view (h b)) cur size align fit low in
        let whole : start cur (h b).size size align ≡ cur + (h b).size - size =
          rw (start, z) refl in
        rw z (omega arith)
    | inr nz ↦
        let whole : start cur (h b).size size align
            ≡ cur + (h b).size - size - (cur + (h b).size - size) % align =
          rw (start, nz) refl in
        rw nz (omega arith)
  ]

  pub carve-Cut :
      (k1 k2 : ℕ)
      → k1 ≢ k2
      → IsSpare h k1
      → IsSpare h k2
      → let p = start cur (h b).size size align in
        Cut h
          (some b)
          (b ∷ is)
          (cut (p - cur) size (cur + (h b).size - (p + size)) (segs h is))
          p
          (carve h b cur size align)
  unfolding carve cut
  carve-Cut k1 k2 apart spare1 spare2 =
      let p = start cur (h b).size size align in
      let (free_now, room, top, aligned) = fit_bounds (view (h b)) cur size align fit low in
      let left_eq = left_size_lem in
      elim (Bool-cases (p - cur == 0)) [
        | inl z ↦
            let p_eq : p ≡ cur = ground arith in
            let right_eq : cur + (h b).size - (p + size) ≡ (h b).size - size = omega arith in
            rw (left_eq, z, right_eq, p_eq)
              (cut_right-Cut h b is cur size here out rest room (omega arith) k1 spare1)
        | inr nz ↦
            let right_eq : cur + (h b).size - (p + size) ≡ (h b).size - (p - cur) - size =
              omega arith in
            let p_eq : cur + (p - cur) ≡ p = omega arith in
            let c =
              split_left-Cut h b (p - cur) is cur size heap_used free_now here out rest
                (omega arith) (ground arith) (omega arith) k1 k2 apart spare1 spare2 in
            rw (left_eq, nz, right_eq) (rw p_eq at c)
      ]
