-- ===== src/Libio/Strings/Search.antt =====
-- sys/libio/string.inl: the counts of `strcspn` and `strnlen`.
use kinnow_os.Prelude.{
  ℕ, zero, suc, ◌+◌, ◌<◌, ◌≡◌, refl, Bool, false, Option, none, some, arith, ◌==◌, ltb,
  if◌then◌else◌, Option-cases, inl, inr,
}
use kinnow_os.Storage.Memory.{Memory}
use kinnow_os.Storage.Text
use kinnow_os.Storage.Text.{IsText, scan, is_match}
use kinnow_os.Storage.Text.Scan.{IsText-tail}
use kinnow_os.Libio.Strings.{strcspn_loop, strcspn, strpbrk, strlen, strnlen_loop, strnlen}

-- 1 for an address, 0 for NULL.
abbrev pub found_count : Option (Option ℕ) → Option ℕ
found_count none = none
found_count (some none) = some 0
found_count (some (some p)) = some 1

module _ (m : Memory) where
  strcspn_loop-scan :
      (hit : ℕ → Bool) (fuel s : ℕ) → strcspn_loop hit fuel m s 0 ≡ found_count (scan hit fuel m s)
  unfolding strcspn_loop scan
  strcspn_loop-scan hit zero s = refl
  strcspn_loop-scan hit (suc fuel) s = ground (arith, strcspn_loop-scan hit fuel (s + 1))

  -- `strcspn` does not count the characters in front of the first accepted one: it is 1 where
  -- `strpbrk` finds one, and 0 where it finds none.
  pub strcspn-strpbrk :
      (fuel s accept : ℕ) → strcspn fuel m s accept ≡ found_count (strpbrk fuel m s accept)
  unfolding strcspn strpbrk
  strcspn-strpbrk fuel s accept = elim (Option-cases (Text.length fuel m accept)) [
    | inl e ↦ rw (strcspn, strlen, Text.break_p, e) refl
    | inr (n, e) ↦
        rw (strcspn, strlen, Text.break_p, e)
          (strcspn_loop-scan (λ a. is_match m (m a) accept 0 n) fuel s)
  ]

  strnlen_loop_lem :
      (fuel s a n i : ℕ)
      → IsText m s a
      → a < fuel
      → i < n
      → strnlen_loop fuel m s n i ≡ some (if ltb (i + a) n then i + a else n)
  unfolding strnlen_loop
  strnlen_loop_lem zero s a n i t h lt = absurd (omega arith)
  strnlen_loop_lem (suc fuel) s zero n i t h lt = ground (arith, t.ends)
  strnlen_loop_lem (suc fuel) s (suc a) n i t h lt =
      ground (arith, t.goes_on 0, strnlen_loop_lem fuel (s + 1) a n (i + 1) (IsText-tail m t))

  -- `strnlen` of a text is its length or the bound, whichever is less, but 1 and not 0 for the bound
  -- 0 and a text that is not empty.
  pub strnlen_lem :
      (fuel s a n : ℕ)
      → IsText m s a
      → a < fuel
      → strnlen fuel m s n
        ≡ some (if ltb a n then a else if n == 0 then (if a == 0 then 0 else 1) else n)
  unfolding strnlen strnlen_loop
  strnlen_lem zero s a n t h = absurd (omega arith)
  strnlen_lem (suc fuel) s zero zero t h = ground (arith, t.ends)
  strnlen_lem (suc fuel) s (suc a) zero t h = ground (arith, t.goes_on 0)
  strnlen_lem (suc fuel) s a (suc n) t h =
      let run = strnlen_loop_lem (suc fuel) s a (suc n) 0 t h (omega arith) in
      let start : 0 + a ≡ a = omega arith in
      let bound : (suc n == 0) ≡ false = ground arith in rw bound (rw start at run)
