-- ===== src/Libio/Strings/Bounded.antt =====
-- sys/libio/string.inl: what `strncpy` writes.
use kinnow_os.Prelude.{ℕ, zero, suc, ◌+◌, ◌≡◌, refl, false, arith, ◌==◌, ltb, if◌then◌else◌}
use kinnow_os.Storage.Memory
use kinnow_os.Storage.Memory.{Memory, write}
use kinnow_os.Storage.Text.{IsText}
use kinnow_os.Storage.Text.Writes.{IsApart, IsText-after}
use kinnow_os.Libio.Strings.{strncpy}

abbrev pub shorter : ℕ → ℕ → ℕ
shorter a n = if ltb a n then a else n

-- `strncpy` copies the characters of the text, up to the bound, and writes an end byte behind them:
-- for a text that is as long as the bound or longer it writes one byte more than the bound.
pub strncpy_lem :
    (m : Memory) (s1 s2 a n : ℕ)
    → IsText m s2 a
    → IsApart s1 s2 a
    → strncpy m s1 s2 n
      ≡ (write (Memory.copy m s1 s2 (shorter a n)) (s1 + shorter a n) 0, s1 + shorter a n + 1)
unfolding strncpy Memory.copy
strncpy_lem m s1 s2 a zero t apart =
    let none_left : shorter a 0 ≡ 0 = ground arith in
    let here : s1 + 0 ≡ s1 = omega arith in rw (none_left, here) refl
strncpy_lem m s1 s2 zero (suc n) t apart = ground (arith, t.ends)
strncpy_lem m s1 s2 (suc a) (suc n) t apart =
    let more : (m s2 == 0) ≡ false = ground (arith, t.goes_on 0) in
    let rest =
      strncpy_lem (write m s1 (m s2)) (s1 + 1) (s2 + 1) a n (IsText-after m s1 s2 a t apart)
        (omega arith) in
    let k : shorter (suc a) (suc n) ≡ suc (shorter a n) = ground arith in
    let end : s1 + 1 + shorter a n ≡ s1 + suc (shorter a n) = omega arith in
    rw (k, more) (rw end at rest)
