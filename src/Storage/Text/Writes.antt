-- ===== src/Storage/Text/Writes.antt =====
-- The functions that write: `copy` and `concat`.
use kinnow_os.Prelude.{ℕ, zero, suc, ◌+◌, ◌<◌, ◌≤◌, ◌≡◌, ◌⊎◌, some, arith, ◌==◌, false}
use kinnow_os.Storage.Memory
use kinnow_os.Storage.Memory.{Memory, write}
use kinnow_os.Storage.Text.{IsText, copy, concat}
use kinnow_os.Storage.Text.Scan.{length_lem}

-- Room for the text and its end byte at `s1`, away from the text at `s2`.
abbrev pub IsApart : ℕ → ℕ → ℕ → Type 0
IsApart s1 s2 n = (s1 + n + 1 ≤ s2) ⊎ (s2 + n + 1 ≤ s1)

-- Writing the first character leaves the rest of the text.
pub IsText-after :
    (m : Memory) (s1 s2 n : ℕ)
    → IsText m s2 (suc n)
    → IsApart s1 s2 (suc n)
    → IsText (write m s1 (m s2)) (s2 + 1) n
unfolding write
IsText-after m s1 s2 n t apart = record {
  ends = ground (arith, t.ends);
  goes_on = λ i h. ground (arith, t.goes_on (suc i));
}

-- `storage_string::copy` is `storage::copy` of the characters with an end byte behind them, and
-- returns the address behind that byte.
pub copy_lem :
    (fuel : ℕ) (m : Memory) (s1 s2 n : ℕ)
    → IsText m s2 n
    → IsApart s1 s2 n
    → n < fuel
    → copy fuel m s1 s2 ≡ some (write (Memory.copy m s1 s2 n) (s1 + n) 0, s1 + n + 1)
unfolding copy Memory.copy
copy_lem zero m s1 s2 n t apart h = absurd (omega arith)
copy_lem (suc fuel) m s1 s2 zero t apart h = ground (arith, t.ends)
copy_lem (suc fuel) m s1 s2 (suc n) t apart h =
    let more : (m s2 == 0) ≡ false = ground (arith, t.goes_on 0) in
    let rest =
      copy_lem fuel (write m s1 (m s2)) (s1 + 1) (s2 + 1) n (IsText-after m s1 s2 n t apart)
        (omega arith) (omega arith) in
    let end : s1 + 1 + n ≡ s1 + suc n = omega arith in rw more (rw end at rest)

-- `concat` puts the characters of the second text over the end byte of the first, with an end
-- byte behind them.
pub concat_lem :
    (fuel : ℕ) (m : Memory) (s1 s2 n1 n2 : ℕ)
    → IsText m s1 n1
    → IsText m s2 n2
    → IsApart (s1 + n1) s2 n2
    → n1 < fuel
    → n2 < fuel
    → concat fuel m s1 s2
      ≡ some (write (Memory.copy m (s1 + n1) s2 n2) (s1 + n1 + n2) 0, s1 + n1 + n2 + 1)
unfolding concat
concat_lem fuel m s1 s2 n1 n2 t1 t2 apart h1 h2 =
    rw (length_lem m fuel s1 n1 t1 h1, concat) (copy_lem fuel m (s1 + n1) s2 n2 t2 apart h2)
