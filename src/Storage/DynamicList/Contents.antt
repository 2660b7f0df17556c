-- ===== src/Storage/DynamicList/Contents.antt =====
-- The elements of a list.
use kinnow_os.Prelude.{
  ℕ, zero, suc, ◌+◌, ◌-◌, ◌≤◌, ◌<◌, ◌≡◌, refl, sym, ap, ap₂, ◌∙◌, inl, inr, true, false, ◌&&◌,
  Option, none, some, List, [], ◌∷◌, ◌++◌, arith, ltb, leb, ◌==◌, if◌then◌else◌, Bool-cases,
}
use kinnow_os.Storage.DynamicList.{DynamicList, resize, insert, store, shift, remove, aligned}

module _ {ℓ} {A : Type ℓ} where
  abbrev pub elements : (ℕ → A) → ℕ → ℕ → List A
  elements p i zero = []
  elements p i (suc n) = p i ∷ elements p (i + 1) n

  abbrev pub remove_at : List A → ℕ → List A
  remove_at [] i = []
  remove_at (x ∷ xs) zero = xs
  remove_at (x ∷ xs) (suc i) = x ∷ remove_at xs i

  -- A list without storage is empty, and else its storage begins with the elements `xs`.
  pub data Holds (l : DynamicList A) (xs : List A) : Type ℓ where
    bare : l.ptr ≡ none → l.size ≡ 0 → l.capacity ≡ 0 → xs ≡ [] → Holds l xs
    backed :
        (p : ℕ → A) → l.ptr ≡ some p → l.size ≤ l.capacity → elements p 0 l.size ≡ xs → Holds l xs

  -- What a reallocation gives keeps the `n` first elements.
  abbrev pub Keeps : Option (ℕ → A) → (ℕ → A) → ℕ → Type ℓ
  Keeps none q n = Unit
  Keeps (some p) q n = (i : ℕ) → i < n → q i ≡ p i

  pub elements_ext :
      (p q : ℕ → A) (i n : ℕ)
      → ((k : ℕ) → i ≤ k → k < i + n → q k ≡ p k)
      → elements q i n ≡ elements p i n
  elements_ext p q i zero same = refl
  elements_ext p q i (suc n) same =
      ap₂ ◌∷◌ (same i (omega arith) (omega arith))
        (elements_ext p q (i + 1) n (λ k a b. same k (omega arith) (omega arith)))

  elements_last : (p : ℕ → A) (i n : ℕ) → elements p i (suc n) ≡ elements p i n ++ (p (i + n) ∷ [])
  elements_last p i zero = let e : i + 0 ≡ i = omega arith in rw e refl
  elements_last p i (suc n) =
      let e : i + 1 + n ≡ i + suc n = omega arith in rw (elements_last p (i + 1) n, e) refl

  pub elements-store :
      (p q : ℕ → A) (c : A) (n : ℕ)
      → ((i : ℕ) → i < n → q i ≡ p i)
      → elements (λ k. if k == n then c else q k) 0 (n + 1) ≡ elements p 0 n ++ (c ∷ [])
  elements-store p q c n keeps =
      let w = λ (k : ℕ). if k == n then c else q k in
      let e : n + 1 ≡ suc n = omega arith in
      let first : elements w 0 n ≡ elements p 0 n =
        elements_ext p w 0 n (λ k a b. ground (arith, keeps k (omega arith))) in
      let last : w (0 + n) ≡ c = ground arith in rw (e, elements_last w 0 n, first, last) refl

  shift_lem :
      (n : ℕ) (p : ℕ → A) (dest src : ℕ)
      → dest < src
      → (k : ℕ)
      → shift p dest src n k
        ≡ (if leb dest k && ltb k (dest + n) then p (k + (src - dest)) else p k)
  unfolding shift
  shift_lem zero p dest src lt k = ground arith
  shift_lem (suc n) p dest src lt k =
      let q = λ (a : ℕ). if a == dest then p src else p a in
      let rest = shift_lem n q (dest + 1) (src + 1) (omega arith) k in
      elim (Bool-cases (k == dest)) [
        | inl e ↦
            let first : q k ≡ p src = ground arith in
            let same : k ≡ dest = ground arith in
            let where_k : src ≡ k + (src - dest) = omega arith in
            ground (arith, rest, first, where_k)
        | inr ne ↦ let other : q k ≡ p k = ground arith in ground (arith, rest, other)
      ]

  elements_up :
      (p q : ℕ → A) (i n : ℕ)
      → ((k : ℕ) → i ≤ k → k < i + n → q k ≡ p (k + 1))
      → elements q i n ≡ elements p (i + 1) n
  elements_up p q i zero up = refl
  elements_up p q i (suc n) up =
      ap₂ ◌∷◌ (up i (omega arith) (omega arith))
        (elements_up p q (i + 1) n (λ k a b. up k (omega arith) (omega arith)))

  elements-remove_at :
      (p q : ℕ → A) (i n idx : ℕ)
      → idx ≤ n
      → ((k : ℕ) → i ≤ k → k < i + idx → q k ≡ p k)
      → ((k : ℕ) → i + idx ≤ k → k < i + n → q k ≡ p (k + 1))
      → elements q i n ≡ remove_at (elements p i (suc n)) idx
  elements-remove_at p q i n zero le low high =
      elements_up p q i n (λ k a b. high k (omega arith) (omega arith))
  elements-remove_at p q i zero (suc idx) le low high = absurd (omega arith)
  elements-remove_at p q i (suc n) (suc idx) le low high =
      ap₂ ◌∷◌ (low i (omega arith) (omega arith)) (
        elements-remove_at p q (i + 1) n idx (omega arith)
          (λ k a b. low k (omega arith) (omega arith))
          (λ k a b. high k (omega arith) (omega arith)))

  -- Removing one element of the list leaves the others in their order.
  pub remove_lem :
      (l : DynamicList A) (xs : List A) (idx : ℕ)
      → Holds l xs
      → idx < l.size
      → Holds (remove l idx 1) (remove_at xs idx)
  unfolding remove
  remove_lem l xs idx (bare null z1 z2 z3) lt = absurd (omega arith)
  remove_lem l xs idx (backed p at le shows) lt =
      let n = l.size - 1 in
      let q = shift p idx (idx + 1) (l.size - (idx + 1)) in
      let moved = shift_lem (l.size - (idx + 1)) p idx (idx + 1) (omega arith) in
      let one : idx + 1 - idx ≡ 1 = omega arith in
      let whole : l.size ≡ suc n = omega arith in
      let e : elements q 0 n ≡ remove_at (elements p 0 (suc n)) idx =
        elements-remove_at p q 0 n idx (omega arith) (λ k a b. moved k ∙ ground arith)
          (λ k a b. moved k ∙ ground (arith, one)) in
      let shows' : elements p 0 (suc n) ≡ xs = ap (elements p 0) (sym whole) ∙ shows in
      rw at (backed q refl (omega arith) (e ∙ ap (λ ys. remove_at ys idx) shows'))

  -- Inserting an object, with storage given where there is no room, puts it behind the elements and
  -- returns its index, if a reallocation keeps the elements.
  pub insert_lem :
      (given : Option (ℕ → A)) (l : DynamicList A) (xs : List A) (c : A) (q : ℕ → A)
      → Holds l xs
      → given ≡ some q
      → Keeps l.ptr q l.size
      → let (i, l') = insert given l c in (i ≡ some l.size) × Holds l' (xs ++ (c ∷ []))
  unfolding insert resize store
  insert_lem given l xs c q (bare null z1 z2 z3) e keeps =
      let e1 : l.size + 1 - 1 ≡ l.size = omega arith in
      let shown = elements-store q q c l.size (λ i lt. refl) in
      let nothing : elements q 0 l.size ≡ [] = rw z1 refl in
      rw (null, e, e1, z3)
        (refl, backed _ refl (ground arith) (shown ∙ ap (λ ys. ys ++ (c ∷ [])) nothing))
  insert_lem given l xs c q (backed p at le shows) e keeps =
      let e1 : l.size + 1 - 1 ≡ l.size = omega arith in
      elim (Bool-cases (ltb l.capacity (l.size + 1))) [
        | inl full ↦
            rw (at, full, e, e1, ← shows)
              (refl, backed _ refl (ground arith) (elements-store p q c l.size (rw at at keeps)))
        | inr room ↦
            rw (at, room, e1, ← shows)
              (refl, backed _ refl (ground arith) (elements-store p p c l.size (λ i lt. refl)))
      ]

  -- Where a list without room is refused more storage, `insert` returns `nullptr`, but the list has
  -- grown by an element and more capacity in the storage it had, and the next `insert` asks for none
  -- and returns an index behind it.
  pub insert_refused :
      (given : Option (ℕ → A)) (l : DynamicList A) (c : A) (p : ℕ → A)
      → l.ptr ≡ some p
      → l.size ≡ l.capacity
      → let (i, l') = insert none l c in
        (i ≡ none)
        × (l'.ptr ≡ l.ptr)
        × (l'.size ≡ l.size + 1)
        × (l.capacity < l'.capacity)
        × ((insert given l' c).0 ≡ some (l.capacity + 1))
  unfolding insert resize
  insert_refused given l c p at full =
      let short : ltb l.capacity (l.size + 1) ≡ true = ground arith in
      let enough : ltb (aligned (l.size + 1)) (l.size + 1 + 1) ≡ false = ground arith in
      let last : l.size + 1 + 1 - 1 ≡ l.capacity + 1 = omega arith in
      rw (at, short, enough, last) (refl, refl, refl, ground arith, refl)
