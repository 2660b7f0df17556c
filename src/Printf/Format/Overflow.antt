-- ===== src/Printf/Format/Overflow.antt =====
-- vsnprintf of the format "%s": the characters of the text, and where the end byte goes.
use Prim.Native.Nat.{min}
use native.Mathlib.Decide.{ℕ_discrete}
use kinnow_os.Prelude.{
  ℕ, zero, suc, ◌+◌, ◌-◌, ◌%◌, ◌^◌, ◌≤◌, ◌<◌, ◌≡◌, ◌≢◌, ◌⊎◌, inl, inr, refl, sym, ap, ◌∙◌, some,
  arith, ==_ne, ◌==◌, ltb, leb, true, false, if◌then◌else◌, Bool-cases,
}
use kinnow_os.Storage.Memory.{Memory, write}
use kinnow_os.Storage.Text
use kinnow_os.Storage.Text.{IsText}
use kinnow_os.Storage.Text.Scan.{length_lem}
use kinnow_os.Printf.Format.{
  Call, format, finish, vsnprintf, convert, convert_text, put_text, truncate,
}
use kinnow_os.Printf.Format.Plain.{write_other, write_same}

module _ (c : Call) (str : ℕ) where
  -- What the loop of the conversion leaves, from the character `j` of `len` on.
  record Puts (m m' : Memory) (j len : ℕ) : Type 0 where
    put : (x : ℕ) → j ≤ x → x < len → m' (c.s + x) ≡ m (str + x)
    same : (a : ℕ) → (a < c.s + j) ⊎ (c.s + len ≤ a) → m' a ≡ m a

  Puts-step :
      (m m' : Memory) (j len : ℕ)
      → j < len
      → (c.s + len ≤ str) ⊎ (str + len ≤ c.s)
      → Puts (write m (c.s + j) (m (str + j))) m' (j + 1) len
      → Puts m m' j len
  Puts-step m m' j len h apart rest = record {
    put = λ x above below. elim (ℕ_discrete x j) [
      | yes here ↦
          rw (here, rest.same (c.s + j) (inl (omega arith)))
            (write_same m (c.s + j) (m (str + j)) (c.s + j) refl)
      | no later ↦
          rest.put x (omega arith) below
          ∙ write_other m (c.s + j) (m (str + j)) (str + x) (λ q. ground (arith, apart))
    ];
    same = λ a out.
        rest.same a (ground (arith, out))
        ∙ write_other m (c.s + j) (m (str + j)) a (λ q. ground (arith, out));
  }

  put_text-Puts :
      (f : ℕ) (m : Memory) (j len : ℕ)
      → j ≤ len
      → len < f + j
      → ((x : ℕ) → x < len → m (str + x) ≢ 1)
      → (c.s + len ≤ str) ⊎ (str + len ≤ c.s)
      → (m' : Memory) × (put_text f c str len m j j ≡ some (m', len)) × Puts m m' j len
  unfolding put_text
  put_text-Puts zero m j len h fuel plain apart = absurd (omega arith)
  put_text-Puts (suc f) m j len h fuel plain apart = elim (Bool-cases (ltb j len)) [
    | inr done ↦
        let e : j ≡ len = ground arith in
        (m, rw (done, e) refl, record { put = λ x a b. absurd (omega arith); same = λ a out. refl })
    | inl more ↦
        let lt : j < len = ground arith in
        let char : (m (str + j) == 1) ≡ false = ==_ne (m (str + j)) 1 (plain j lt) in
        let (m', run, puts) =
          put_text-Puts f (write m (c.s + j) (m (str + j))) (j + 1) len (omega arith) (omega arith)
            (λ x b e. plain x b (
              sym (write_other m (c.s + j) (m (str + j)) (str + x) (λ q. ground (arith, apart)))
              ∙ e))
            apart in
        (m', rw (more, char) run, Puts-step m m' j len lt apart puts)
  ]

  -- The format "%s" for a text of `k` characters, apart from the buffer and the byte behind it.
  pub record IsStringCall (m : Memory) (fmt k : ℕ) : Type 0 where
    pub percent : m fmt ≡ b'%'
    pub letter : m (fmt + 1) ≡ b's'
    pub ends : m (fmt + 2) ≡ 0
    pub fmt_apart : (fmt + 2 < c.s) ⊎ (c.s + c.n < fmt)
    pub arg : c.args 0 ≡ str
    pub present : str ≢ 0
    pub text : IsText m str k
    pub no_word : (x : ℕ) → x < k → m (str + x) ≢ 1
    pub apart : (str + k < c.s) ⊎ (c.s + c.n < str)

  truncate_lem : (k : ℕ) → c.n < 2 ^ 64 → truncate c 0 k ≡ min k c.n
  truncate_lem k size = ground arith

  -- The conversion, over the buffer with its first end byte.
  convert-text :
      (f : ℕ) (m : Memory) (fmt k : ℕ)
      → IsStringCall m fmt k
      → c.n < 2 ^ 64
      → k < f
      → (m' : Memory) × (convert f c (write m c.s 0) 0 0 b's' ≡ some (m', min k c.n, 1, 1))
        × Puts (write m c.s 0) m' 0 (min k c.n)
  unfolding convert convert_text
  convert-text f m fmt k h size fuel =
      let kept : (x : ℕ) → x ≤ k → write m c.s 0 (str + x) ≡ m (str + x) =
        λ x b. write_other m c.s 0 (str + x) (λ q. ground (arith, h.apart)) in
      let len : Text.length f (write m c.s 0) str ≡ some k =
        length_lem (write m c.s 0) f str k
          (record {
            ends = kept k (omega arith) ∙ h.text.ends;
            goes_on = λ x b e. h.text.goes_on x b (sym (kept x (omega arith)) ∙ e);
          })
          fuel in
      let (m', run, puts) =
        put_text-Puts f (write m c.s 0) 0 (min k c.n) (omega arith) (omega arith)
          (λ x b e. h.no_word x (omega arith) (sym (kept x (omega arith)) ∙ e))
          (ground (arith, h.apart)) in
      let given : (if c.args 0 == 0 then c.null_text else c.args 0) ≡ str =
        rw (h.arg, ==_ne str 0 h.present) refl in
      (m', rw (convert_text, given, len, truncate_lem k size, given, run) refl, puts)

  -- What stands in the buffer behind the conversion and the end bytes.
  pub Prints : Memory → Memory → ℕ → Type 0
  Prints m m' k =
      ((x : ℕ) → x < min k (c.n - 1) → m' (c.s + x) ≡ m (str + x))
      × (m' (c.s + min k (c.n - 1)) ≡ 0)
      × (m' (c.s + min k c.n) ≡ 0)
      × ((a : ℕ) → (a < c.s) ⊎ (c.s + c.n ≤ a) → a ≢ c.s + min k c.n → m' a ≡ m a)

  -- The index is cut to the last byte of the buffer.
  finish-at :
      (m : Memory) (k : ℕ)
      → 2 ≤ c.n
      → c.n < 2 ^ 64
      → finish c m (min k c.n) ≡ write m (c.s + min k (c.n - 1)) 0
  unfolding finish
  finish-at m k large size =
      let e : (if leb c.n (min k c.n) then (c.n + 2 ^ 64 - 1) % 2 ^ 64 else min k c.n)
          ≡ min k (c.n - 1) =
        ground arith in
      ap (λ x. write m (c.s + x) 0) e

  finish-Prints :
      (m m2 : Memory) (fmt k : ℕ)
      → IsStringCall m fmt k
      → 2 ≤ c.n
      → c.n < 2 ^ 64
      → Puts (write m c.s 0) m2 0 (min k c.n)
      → Prints m (finish c (write m2 (c.s + min k c.n) 0) (min k c.n)) k
  unfolding Prints
  finish-Prints m m2 fmt k h large size puts =
      let m3 = write m2 (c.s + min k c.n) 0 in
      let at : finish c m3 (min k c.n) ≡ write m3 (c.s + min k (c.n - 1)) 0 =
        finish-at m3 k large size in
      rw at (
        λ x b.
            write_other m3 (c.s + min k (c.n - 1)) 0 (c.s + x) (λ q. omega arith)
            ∙ write_other m2 (c.s + min k c.n) 0 (c.s + x) (λ q. omega arith)
            ∙ puts.put x (omega arith) (omega arith)
            ∙ write_other m c.s 0 (str + x) (λ q. ground (arith, h.apart)),
        write_same m3 (c.s + min k (c.n - 1)) 0 (c.s + min k (c.n - 1)) refl,
        elim (ℕ_discrete (min k c.n) (min k (c.n - 1))) [
          | yes e ↦ write_same m3 (c.s + min k (c.n - 1)) 0 (c.s + min k c.n) (ap (λ x. c.s + x) e)
          | no ne ↦
              write_other m3 (c.s + min k (c.n - 1)) 0 (c.s + min k c.n) (λ q. ne (omega arith))
              ∙ write_same m2 (c.s + min k c.n) 0 (c.s + min k c.n) refl
        ],
        λ a out ne.
            write_other m3 (c.s + min k (c.n - 1)) 0 a (λ q. ground (arith, out))
            ∙ write_other m2 (c.s + min k c.n) 0 a ne
            ∙ puts.same a (ground (arith, out))
            ∙ write_other m c.s 0 a (λ q. ground (arith, out)),
      )

  -- A text of `k` characters without a byte 1, printed by "%s" into a buffer of at least two
  -- bytes: the characters that fit are copied, with an end byte behind, and an end byte is also
  -- written at the index `min k n`, which is behind the buffer where the text does not fit. No
  -- other byte outside of the buffer changes. The format and the text are apart from the buffer
  -- and the byte behind it, and there is fuel for the characters.
  pub vsnprintf-string :
      (f : ℕ) (m : Memory) (fmt k : ℕ)
      → IsStringCall m fmt k
      → 2 ≤ c.n
      → c.n < 2 ^ 64
      → k < f
      → (m' : Memory) × (vsnprintf (suc f) c m fmt ≡ some m') × Prints m m' k
  unfolding vsnprintf format
  vsnprintf-string zero m fmt k h large size fuel = absurd (omega arith)
  vsnprintf-string (suc f) m fmt k h large size fuel =
      let kept : (a : ℕ) → fmt ≤ a → a ≤ fmt + 2 → write m c.s 0 a ≡ m a =
        λ a low high. write_other m c.s 0 a (λ q. ground (arith, h.fmt_apart)) in
      let percent : write m c.s 0 fmt ≡ b'%' = kept fmt (omega arith) (omega arith) ∙ h.percent in
      let letter : write m c.s 0 (fmt + 1) ≡ b's' =
        kept (fmt + 1) (omega arith) (omega arith) ∙ h.letter in
      let room : ltb 0 ((c.n + 2 ^ 64 - 1) % 2 ^ 64) ≡ true = ground arith in
      let (m2, run, puts) = convert-text (suc f) m fmt k h size fuel in
      let m3 = write m2 (c.s + min k c.n) 0 in
      let two : fmt + 1 + 1 ≡ fmt + 2 = omega arith in
      let ends : m3 (fmt + 2) ≡ 0 =
        write_other m2 (c.s + min k c.n) 0 (fmt + 2) (λ q. ground (arith, h.fmt_apart))
        ∙ puts.same (fmt + 2) (ground (arith, h.fmt_apart))
        ∙ kept (fmt + 2) (omega arith) (omega arith)
        ∙ h.ends in
      (
        finish c m3 (min k c.n),
        rw (percent, letter, room, run, two, ends) refl,
        finish-Prints m m2 fmt k h large size puts,
      )
