-- ===== src/Fdt/Format/Parse.antt =====
-- One item of an encoded device tree, as kernel/fdt.cxx reads it.
use kinnow_os.Prelude.{
  ℕ, ◌+◌, ◌-◌, ◌%◌, ◌^◌, ◌<◌, ◌≡◌, ◌⊎◌, inl, inr, ◌∙◌, List, ◌∷◌, ◌++◌, length, replicate, arith,
}
use native.Mathlib.Decide.{ℕ_discrete}
use kinnow_os.Storage.Memory.{Memory}
use kinnow_os.Storage.Text.{IsText}
use kinnow_os.Fdt.Walk.{word_at, padding, behind_prop}
use kinnow_os.Fdt.Format.{Item, enter, property, word, encode, size, IsName, Holds}
use kinnow_os.Fdt.Format.Reads.{
  Holds-at, Holds-word, Holds-behind, Holds-zeros, Holds-name, padding_lem,
}

module _ (m : Memory) (a : ℕ) (aligned : a % 4 ≡ 0) where
  unfoldable pub IsProperty : ℕ → List ℕ → List Item → Type 0
  IsProperty name bytes xs =
      (word_at m a ≡ 3)
      × (word_at m (a + 8) ≡ name)
      × (behind_prop m (a + 4) ≡ a + size (property name bytes))
      × Holds m (a + size (property name bytes)) (encode xs)

  pub parse-property :
      (name : ℕ) (bytes : List ℕ) (xs : List Item)
      → name < 2 ^ 32
      → length bytes < 2 ^ 32
      → Holds m a (encode (property name bytes ∷ xs))
      → IsProperty name bytes xs
  unfolding IsProperty encode behind_prop size
  parse-property name bytes xs small short h =
      let fill = (4 - length bytes % 4) % 4 in
      let (token, h1) = Holds-word m a 3 _ (omega arith) h in
      let (len, h2) = Holds-word m (a + 4) (length bytes) _ short h1 in
      let (off_name, h3) = Holds-word m (a + 4 + 4) name _ small h2 in
      let h4 =
        Holds-zeros m (a + 4 + 4 + 4 + length bytes) fill (encode xs)
          (Holds-behind m (a + 4 + 4 + 4) bytes (replicate fill 0 ++ encode xs) h3) in
      let place : a + 4 + 4 + 4 + length bytes + fill ≡ a + (12 + length bytes + fill) =
        omega arith in
      let eight : a + 4 + 4 ≡ a + 8 = omega arith in
      (
        token,
        rw eight at off_name,
        rw len (padding_lem m (a + 4 + 8 + length bytes) ∙ omega (arith, aligned)),
        Holds-at m (encode xs) place h4,
      )

  -- Behind a name stands a word of zeros, where its end byte begins one.
  unfoldable pub IsNode : List ℕ → List Item → Type 0
  IsNode name xs =
      (word_at m a ≡ 1)
      × IsText m (a + 4) (length name)
      × ((padding (a + 4 + length name) ≡ a + size (enter name))
          ⊎ ((padding (a + 4 + length name) + 4 ≡ a + size (enter name))
              × (word_at m (padding (a + 4 + length name)) ≡ 0)))
      × Holds m (a + size (enter name)) (encode xs)

  behind_name :
      (k : ℕ) (rest : List ℕ)
      → Holds m (a + 4 + k) (0 ∷ (replicate (3 - k % 4) 0 ++ rest))
      → (padding (a + 4 + k) ≡ a + (4 + k + (4 - k % 4)))
        ⊎ ((padding (a + 4 + k) + 4 ≡ a + (4 + k + (4 - k % 4)))
            × (word_at m (padding (a + 4 + k)) ≡ 0))
  unfolding word
  behind_name k rest h = elim (ℕ_discrete (k % 4) 0) [
    | no apart ↦ inl (padding_lem m (a + 4 + k) ∙ omega (arith, aligned, apart))
    | yes full ↦
        let stays : padding (a + 4 + k) ≡ a + 4 + k =
          padding_lem m (a + 4 + k) ∙ omega (arith, aligned, full) in
        let zeros : Holds m (a + 4 + k) (word 0 ++ rest) = rw full at h in
        inr (
          omega (arith, stays, full),
          rw stays (Holds-word m (a + 4 + k) 0 rest (omega arith) zeros).0,
        )
  ]

  pub parse-enter :
      (name : List ℕ) (xs : List Item)
      → IsName name
      → Holds m a (encode (enter name ∷ xs))
      → IsNode name xs
  unfolding IsNode encode size Holds
  parse-enter name xs clean h =
      let k = length name in
      let (token, h1) = Holds-word m a 1 _ (omega arith) h in
      let h2 = Holds-behind m (a + 4) name (0 ∷ (replicate (3 - k % 4) 0 ++ encode xs)) h1 in
      let h3 = Holds-zeros m (a + 4 + k + 1) (3 - k % 4) (encode xs) h2.1 in
      let place : a + 4 + k + 1 + (3 - k % 4) ≡ a + (4 + k + (4 - k % 4)) = omega arith in
      (
        token,
        Holds-name m (a + 4) name (replicate (3 - k % 4) 0 ++ encode xs) clean h1,
        behind_name k (encode xs) h2,
        Holds-at m (encode xs) place h3,
      )

  pub node-rest :
      (name : List ℕ) (xs : List Item)
      → IsNode name xs
      → Holds m (a + size (enter name)) (encode xs)
  unfolding IsNode
  node-rest name xs (token, text, place, h) = h

  pub property-rest :
      (name : ℕ) (bytes : List ℕ) (xs : List Item)
      → IsProperty name bytes xs
      → Holds m (a + size (property name bytes)) (encode xs)
  unfolding IsProperty
  property-rest name bytes xs (token, off_name, place, h) = h
