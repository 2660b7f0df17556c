-- ===== src/Printf/Format/Plain.antt =====
-- vsnprintf of a format without conversions and without words of the dictionary.
use Prim.Native.Nat.{min}
use native.Mathlib.Decide.{ℕ_discrete}
use kinnow_os.Prelude.{
  ℕ, zero, suc, ◌+◌, ◌-◌, ◌%◌, ◌^◌, ◌≤◌, ◌<◌, ◌≡◌, ◌≢◌, ◌⊎◌, inl, inr, refl, sym, ◌∙◌, some, arith,
  ==_ne, ==_iff, Bool-cases, ◌==◌, ltb, leb, true, false, ltb→lt,
}
use kinnow_os.Storage.Memory.{Memory, write}
use kinnow_os.Printf.Format.{Call, format, finish, vsnprintf}

-- A text of `k` characters at `t`, none of which has a meaning of its own in a format.
pub record IsPlain (m : Memory) (t k : ℕ) : Type 0 where
  pub ends : m (t + k) ≡ 0
  pub goes_on : (i : ℕ) → i < k → m (t + i) ≢ 0
  pub no_percent : (i : ℕ) → i < k → m (t + i) ≢ b'%'
  pub no_word : (i : ℕ) → i < k → m (t + i) ≢ 1

pub write_other : (m : Memory) (p v a : ℕ) → a ≢ p → write m p v a ≡ m a
unfolding write
write_other m p v a h = rw (==_ne a p h)

pub write_same : (m : Memory) (p v a : ℕ) → a ≡ p → write m p v a ≡ v
unfolding write
write_same m p v a h = rw ((==_iff a p).1 h)

-- A change of memory outside of a text leaves it.
IsPlain-keep :
    (m m' : Memory) (t k : ℕ)
    → IsPlain m t (suc k)
    → ((a : ℕ) → t < a → a ≤ t + suc k → m' a ≡ m a)
    → IsPlain m' (t + 1) k
IsPlain-keep m m' t k p same = record {
  ends = ground (arith, same (t + 1 + k), p.ends);
  goes_on = λ i h. ground (arith, same (t + 1 + i), p.goes_on (suc i));
  no_percent = λ i h. ground (arith, same (t + 1 + i), p.no_percent (suc i));
  no_word = λ i h. ground (arith, same (t + 1 + i), p.no_word (suc i));
}

module _ (c : Call) (some_room : 0 < c.n) (size : c.n < 2 ^ 64) where
  -- What the loop leaves from the index `i` on, for a rest of the format of `k` characters.
  record Copies (m m' : Memory) (i fmt k : ℕ) : Type 0 where
    copied : (j : ℕ) → i ≤ j → j < min (i + k) (c.n - 1) → m' (c.s + j) ≡ m (fmt + (j - i))
    ended : m' (c.s + min (i + k) (c.n - 1)) ≡ 0
    same : (a : ℕ) → (a < c.s + i) ⊎ (c.s + c.n ≤ a) → m' a ≡ m a

  stop-Copies :
      (m : Memory) (i fmt k : ℕ)
      → i < c.n
      → min (i + k) (c.n - 1) ≡ i
      → Copies m (finish c m i) i fmt k
  unfolding finish
  stop-Copies m i fmt k h e =
      let below : leb c.n i ≡ false = ground arith in
      record {
        copied = λ j a b. absurd (omega arith);
        ended = rw (below, e) (write_same m (c.s + i) 0 (c.s + i) refl);
        same = λ a out. rw below (write_other m (c.s + i) 0 a (λ q. ground (arith, out)));
      }

  -- The text of the format is apart from the buffer.
  abbrev pub IsApart : ℕ → ℕ → Type 0
  IsApart fmt k = (fmt + k < c.s) ⊎ (c.s + c.n ≤ fmt)

  -- The memory after one character and the end byte behind it.
  abbrev after : Memory → ℕ → ℕ → Memory
  after m i ch = write (write m (c.s + i) ch) (c.s + (i + 1)) 0

  after-same : (m : Memory) (i ch a : ℕ) → a ≢ c.s + i → a ≢ c.s + (i + 1) → after m i ch a ≡ m a
  after-same m i ch a p q =
      write_other (write m (c.s + i) ch) (c.s + (i + 1)) 0 a q ∙ write_other m (c.s + i) ch a p

  after-char : (m : Memory) (i ch : ℕ) → after m i ch (c.s + i) ≡ ch
  after-char m i ch =
      write_other (write m (c.s + i) ch) (c.s + (i + 1)) 0 (c.s + i) (λ e. omega arith)
      ∙ write_same m (c.s + i) ch (c.s + i) refl

  Copies-step :
      (m m' : Memory) (i fmt k : ℕ)
      → i + 1 < c.n
      → IsApart fmt (suc k)
      → Copies (after m i (m fmt)) m' (i + 1) (fmt + 1) k
      → Copies m m' i fmt (suc k)
  Copies-step m m' i fmt k h apart rest =
      let e : i + 1 + k ≡ i + suc k = omega arith in
      record {
        copied = λ j above below. elim (ℕ_discrete j i) [
          | yes here ↦
              let zero_off : fmt + (i - i) ≡ fmt = omega arith in
              rw (here, zero_off, rest.same (c.s + i) (inl (omega arith))) (after-char m i (m fmt))
          | no later ↦
              let place : fmt + 1 + (j - (i + 1)) ≡ fmt + (j - i) = omega arith in
              rest.copied j (omega arith) (omega arith)
              ∙ rw place (
                  after-same m i (m fmt) (fmt + (j - i)) (λ q. ground (arith, apart))
                    (λ q. ground (arith, apart)))
        ];
        ended = rw e at rest.ended;
        same = λ a out.
            rest.same a (ground (arith, out))
            ∙ after-same m i (m fmt) a (λ q. ground (arith, out)) (λ q. ground (arith, out));
      }

  format-Copies :
      (f : ℕ) (m : Memory) (i fmt k a : ℕ)
      → IsPlain m fmt k
      → IsApart fmt k
      → i < c.n
      → k < f
      → (m' : Memory) × (format f c m i fmt a ≡ some m') × Copies m m' i fmt k
  unfolding format
  format-Copies zero m i fmt k a p apart h fuel = absurd (omega arith)
  format-Copies (suc f) m i fmt zero a p apart h fuel =
      let done : (m fmt == 0) ≡ true = ground (arith, p.ends) in
      (finish c m i, rw done refl, stop-Copies m i fmt 0 h (omega arith))
  format-Copies (suc f) m i fmt (suc k) a p apart h fuel =
      let more : (m fmt == 0) ≡ false = ground (arith, p.goes_on 0) in
      elim (Bool-cases (ltb i ((c.n + 2 ^ 64 - 1) % 2 ^ 64))) [
        | inr full ↦
            (finish c m i, rw (more, full) refl, stop-Copies m i fmt (suc k) h (ground arith))
        | inl open_ ↦
            let no_percent : (m fmt == b'%') ≡ false = ground (arith, p.no_percent 0) in
            let no_word : (m fmt == 1) ≡ false = ground (arith, p.no_word 0) in
            let in_room : i + 1 < c.n =
              omega (arith, ltb→lt i ((c.n + 2 ^ 64 - 1) % 2 ^ 64) open_) in
            let kept = IsPlain-keep m (after m i (m fmt)) fmt k p (λ x low high.
              after-same m i (m fmt) x (λ q. ground (arith, apart)) (λ q. ground (arith, apart))) in
            let (m', run, copies) =
              format-Copies f (after m i (m fmt)) (i + 1) (fmt + 1) k a kept (ground (arith, apart))
                in_room (omega arith) in
            (
              m',
              rw (more, open_, no_percent, no_word) run,
              Copies-step m m' i fmt k in_room apart copies,
            )
      ]

  IsPlain-start :
      (m : Memory) (fmt k : ℕ) → IsPlain m fmt k → IsApart fmt k → IsPlain (write m c.s 0) fmt k
  IsPlain-start m fmt k p apart =
      let same : (i : ℕ) → i ≤ k → m (fmt + i) ≡ write m c.s 0 (fmt + i) =
        λ i h. sym (write_other m c.s 0 (fmt + i) (λ q. ground (arith, apart))) in
      record {
        ends = sym (same k (omega arith)) ∙ p.ends;
        goes_on = λ i h e. p.goes_on i h (same i (omega arith) ∙ e);
        no_percent = λ i h e. p.no_percent i h (same i (omega arith) ∙ e);
        no_word = λ i h e. p.no_word i h (same i (omega arith) ∙ e);
      }

  -- A format without a percent sign and without a byte 1 is copied into the buffer, up to one
  -- character less than its size, with an end byte behind; nothing outside of the buffer changes.
  -- The text of the format is apart from the buffer, and there is fuel for its characters.
  pub vsnprintf-plain :
      (f : ℕ) (m : Memory) (fmt k : ℕ)
      → IsPlain m fmt k
      → IsApart fmt k
      → k < f
      → (m' : Memory) × (vsnprintf f c m fmt ≡ some m')
        × ((j : ℕ) → j < min k (c.n - 1) → m' (c.s + j) ≡ m (fmt + j))
        × (m' (c.s + min k (c.n - 1)) ≡ 0)
        × ((a : ℕ) → (a < c.s) ⊎ (c.s + c.n ≤ a) → m' a ≡ m a)
  unfolding vsnprintf
  vsnprintf-plain f m fmt k p apart fuel =
      let same = λ (a : ℕ) (ne : a ≢ c.s). write_other m c.s 0 a ne in
      let (m', run, copies) =
        format-Copies f (write m c.s 0) 0 fmt k 0 (IsPlain-start m fmt k p apart) apart some_room
          fuel in
      let whole : 0 + k ≡ k = omega arith in
      (
        m',
        run,
        λ j h.
            let place : fmt + (j - 0) ≡ fmt + j = omega arith in
            rw place at (copies.copied j (omega arith) (omega arith))
            ∙ same (fmt + j) (λ q. ground (arith, apart)),
        rw whole at copies.ended,
        λ a out. copies.same a (ground (arith, out)) ∙ same a (λ q. ground (arith, out)),
      )
