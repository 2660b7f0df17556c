-- ===== src/Libio/Strings/Compare.antt =====
-- sys/libio/string.inl: what `strcmp` tells about two texts.
use kinnow_os.Prelude.{
  ℕ, zero, suc, ◌+◌, ◌-◌, ◌<◌, ◌≡◌, ◌≢◌, ◌⊎◌, ◌↔◌, refl, ap, ◌∙◌, Bool-cases, leb, false, some,
  arith, ◌==◌, inl, inr,
}
use kinnow_os.Prelude.Int.{ℤ, pos, ◌+ℤ◌, sub_ℕ}
use kinnow_os.Storage.Memory.{Memory, compare_loop}
use kinnow_os.Storage.Memory.Compare.{total, compare_loop-total, sub_zero_iff}
use kinnow_os.Storage.Text.{IsText}
use kinnow_os.Storage.Text.Scan.{length_lem}
use kinnow_os.Libio.Strings.{cmp_loop, cmp_result, strcmp, strlen}

module _ (m : Memory) where
  -- The loop ends behind `n` characters of both texts, where the count or one of the texts does.
  cmp_loop_lem :
      (n r s1 s2 : ℕ) (diff : ℤ)
      → ((i : ℕ) → i < n → m (s1 + i) ≢ 0)
      → ((i : ℕ) → i < n → m (s2 + i) ≢ 0)
      → (r ≡ 0) ⊎ ((m (s1 + n) ≡ 0) ⊎ (m (s2 + n) ≡ 0))
      → cmp_loop m s1 s2 (n + r) diff ≡ (s1 + n, s2 + n, r, compare_loop m s1 s2 n diff)
  unfolding cmp_loop compare_loop
  cmp_loop_lem zero zero s1 s2 diff f1 f2 ends = ground arith
  cmp_loop_lem zero (suc r) s1 s2 diff f1 f2 ends = ground (arith, ends)
  cmp_loop_lem (suc n) r s1 s2 diff f1 f2 ends =
      let goes1 : (m s1 == 0) ≡ false = ground (arith, f1 0) in
      let goes2 : (m s2 == 0) ≡ false = ground (arith, f2 0) in
      let e1 : s1 + 1 + n ≡ s1 + suc n = omega arith in
      let e2 : s2 + 1 + n ≡ s2 + suc n = omega arith in
      let rest =
        cmp_loop_lem n r (s1 + 1) (s2 + 1) (diff +ℤ sub_ℕ (m s1) (m s2))
          (λ i lt. ground (arith, f1 (suc i))) (λ i lt. ground (arith, f2 (suc i)))
          (rw (e1, e2) ends) in
      let count : suc n + r ≡ suc (n + r) = omega arith in
      rw (count, cmp_loop, goes1, goes2) (rw (e1, e2) at rest)

  cmp_result_iff :
      (s1 s2 a b : ℕ)
      → IsText m s1 a
      → IsText m s2 b
      → (cmp_result m (cmp_loop m s1 s2 a (pos 0)) ≡ pos 0)
        ↔ ((a ≡ b) × (total m s1 a ≡ total m s2 a))
  unfolding cmp_loop
  cmp_result_iff s1 s2 a b t1 t2 = elim (Bool-cases (leb a b)) [
    | inl le ↦
        let e : a + 0 ≡ a = omega arith in
        let run =
          cmp_loop_lem a 0 s1 s2 (pos 0) t1.goes_on (λ i lt. t2.goes_on i (ground (arith, le)))
            (inl refl) in
        let loop = compare_loop-total m s1 s2 a (pos 0) in
        let zero_iff = sub_zero_iff (total m s1 a) (total m s2 a) in
        rw (rw e at run) (ground (arith, le, t1.ends, t2.ends, t2.goes_on a, loop, zero_iff))
    | inr gt ↦
        let e : b + (a - b) ≡ a = ground (arith, gt) in
        let run =
          cmp_loop_lem b (a - b) s1 s2 (pos 0) (λ i lt. t1.goes_on i (ground (arith, gt)))
            t2.goes_on (inr (inr t2.ends)) in
        rw (rw e at run) (ground (arith, gt, t2.ends, t1.goes_on b))
  ]

  -- `strcmp` is 0 exactly for two texts of the same length whose characters have the same sum, with
  -- fuel for the first: the order of the characters does not count.
  pub strcmp_iff :
      (fuel s1 s2 a b : ℕ)
      → IsText m s1 a
      → IsText m s2 b
      → a < fuel
      → (strcmp fuel m s1 s2 ≡ some (pos 0)) ↔ ((a ≡ b) × (total m s1 a ≡ total m s2 a))
  unfolding strcmp
  strcmp_iff fuel s1 s2 a b t1 t2 enough =
      let (to, from) = cmp_result_iff s1 s2 a b t1 t2 in
      let run : strcmp fuel m s1 s2 ≡ some (cmp_result m (cmp_loop m s1 s2 a (pos 0))) =
        rw (strcmp, strlen, length_lem m fuel s1 a t1 enough) refl in
      (
        λ e. let same : cmp_result m (cmp_loop m s1 s2 a (pos 0)) ≡ pos 0 = cc in to same,
        λ e. run ∙ ap some (from e),
      )
