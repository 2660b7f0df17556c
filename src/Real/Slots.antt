-- ===== src/Real/Slots.antt =====
-- `block::create` while the heap has a descriptor to spare.
use kinnow_os.Prelude.{
  ℕ, zero, suc, ◌+◌, ◌/◌, ◌≡◌, ◌≢◌, ◌<◌, ◌≤◌, refl, true, Option, some, arith, inl, inr, Bool-cases,
}
use kinnow_os.Real.{Flag, is_not_present, block, Heap, unit, put, find_slot, create}

module _ (h : Heap) where
  -- The descriptor `k` lies in the heap and is not in use by it.
  abbrev pub IsSpare : ℕ → Type 0
  IsSpare k = (k < (h 0).size / unit) × (is_not_present (h k).flags ≡ true)

  find_slot_lem :
      (i left k : ℕ)
      → i ≤ k
      → k < i + left
      → is_not_present (h k).flags ≡ true
      → (j : ℕ) × (find_slot h i left ≡ some j)
        × (j < i + left)
        × (is_not_present (h j).flags ≡ true)
  unfolding find_slot
  find_slot_lem i zero k le lt e = absurd (omega arith)
  find_slot_lem i (suc left) k le lt e = elim (Bool-cases (is_not_present (h i).flags)) [
    | inl here ↦ (i, rw here, omega arith, here)
    | inr taken ↦
        let ne : i ≢ k = λ same. cc in
        let (j, found, below, spare) = find_slot_lem (i + 1) left k (omega arith) (omega arith) e in
        (j, rw taken found, omega arith, spare)
  ]

  -- Where a descriptor is to spare, `create` writes one of those and nothing else.
  pub create_lem :
      (size : ℕ) (flags : Flag) (next : Option ℕ) (k : ℕ)
      → IsSpare k
      → (j : ℕ) × (create h size flags next ≡ some (j, put h j (block flags size next))) × IsSpare j
  unfolding create
  create_lem size flags next k (lt, e) =
      let (j, found, below, spare) =
        find_slot_lem 0 ((h 0).size / unit) k (omega arith) (omega arith) e in
      (j, rw (found, create) refl, (omega arith, spare))
