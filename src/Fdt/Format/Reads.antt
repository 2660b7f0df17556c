-- ===== src/Fdt/Format/Reads.antt =====
-- What the helpers of kernel/fdt.cxx read of an encoded device tree.
use kinnow_os.Prelude.{
  Bool, true, ◌&&◌, ◌==◌, ==_iff, Bool-cases, inl, inr, ℕ, zero, suc, ◌+◌, ◌-◌, ◌/◌, ◌%◌, ◌^◌, ◌<◌,
  ◌≡◌, ◌≢◌, refl, subst, List, [], ◌∷◌, ◌++◌, length, replicate, arith,
}
use kinnow_os.Storage.Memory.{Memory}
use kinnow_os.Storage.Text.{IsText}
use kinnow_os.Fdt.Walk.{word_at, padding}
use kinnow_os.Fdt.Format.{word, IsName, Holds}

module _ (m : Memory) where
  pub Holds-at : {a b : ℕ} (bytes : List ℕ) → a ≡ b → Holds m a bytes → Holds m b bytes
  Holds-at bytes e h = subst (λ x. Holds m x bytes) e h

  pub Holds-word :
      (a w : ℕ) (rest : List ℕ)
      → w < 2 ^ 32
      → Holds m a (word w ++ rest)
      → (word_at m a ≡ w) × Holds m (a + 4) rest
  unfolding Holds word word_at
  Holds-word a w rest small (b0, (b1, (b2, (b3, h)))) =
      let e2 : m (a + 2) ≡ w / 2 ^ 8 % 256 = ground (arith, b2) in
      let e3 : m (a + 3) ≡ w % 256 = ground (arith, b3) in
      let place : a + 1 + 1 + 1 + 1 ≡ a + 4 = omega arith in
      (rw (b0, b1, e2, e3) (omega arith), Holds-at rest place h)

  pub Holds-behind : (a : ℕ) (xs ys : List ℕ) → Holds m a (xs ++ ys) → Holds m (a + length xs) ys
  unfolding Holds
  Holds-behind a [] ys h = Holds-at ys (omega arith) h
  Holds-behind a (x ∷ xs) ys (e, h) = Holds-at ys (omega arith) (Holds-behind (a + 1) xs ys h)

  length-zeros : (n : ℕ) → length {A = ℕ} (replicate n 0) ≡ n
  length-zeros zero = refl
  length-zeros (suc n) = rw (length-zeros n) refl

  pub Holds-zeros : (a n : ℕ) (ys : List ℕ) → Holds m a (replicate n 0 ++ ys) → Holds m (a + n) ys
  Holds-zeros a n ys h =
      let place : a + length {A = ℕ} (replicate n 0) ≡ a + n = omega (arith, length-zeros n) in
      Holds-at ys place (Holds-behind a (replicate n 0) ys h)

  pub Holds-name :
      (a : ℕ) (name rest : List ℕ)
      → IsName name
      → Holds m a (name ++ (0 ∷ rest))
      → IsText m a (length name)
  unfolding Holds IsName
  Holds-name a [] rest clean (e, h) = record {
    ends = ground (arith, e);
    goes_on = λ i lt. absurd (omega arith);
  }
  Holds-name a (c ∷ cs) rest (here, clean) (e, h) =
      let t = Holds-name (a + 1) cs rest clean h in
      record { ends = ground (arith, t.ends); goes_on = λ i lt. goes_on_cons i lt t }
    where
      goes_on_cons : (i : ℕ) → i < suc (length cs) → IsText m (a + 1) (length cs) → m (a + i) ≢ 0
      goes_on_cons zero lt t q = here (ground (arith, e, q))
      goes_on_cons (suc i) lt t q = t.goes_on i (omega arith) (ground (arith, q))

  -- The place behind a name, and behind its end byte and what fills it up.
  pub padding_lem : (a : ℕ) → padding a ≡ a + (4 - a % 4) % 4
  unfolding padding
  padding_lem a = ground arith

  -- A test of the bytes.
  unfoldable pub holds_all : ℕ → List ℕ → Bool
  holds_all a [] = true
  holds_all a (b ∷ bs) = m a == b && holds_all (a + 1) bs

  pub Holds-holds_all : (a : ℕ) (bytes : List ℕ) → holds_all a bytes ≡ true → Holds m a bytes
  unfolding Holds holds_all
  Holds-holds_all a [] h = tt
  Holds-holds_all a (b ∷ bs) h = elim (Bool-cases (m a == b)) [
    | inl e ↦ ((==_iff (m a) b).0 e, Holds-holds_all (a + 1) bs (rw e at h))
    | inr ne ↦ absurd (cc (rw ne at h))
  ]
