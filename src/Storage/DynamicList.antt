-- ===== src/Storage/DynamicList.antt =====
-- kernel/storage.hxx, storage::dynamic_list. The storage of a list is the function from an index
-- to the element there. What a reallocation gives is an argument of the operations: `none` where
-- it fails, and else the elements of the new storage.
pub mod Contents
mod Tests
use kinnow_os.Prelude.{
  ℕ, zero, suc, ◌+◌, ◌-◌, ◌%◌, Bool, true, false, ◌||◌, Option, none, some, List, [], ◌∷◌, ltb, leb,
  ◌==◌, if◌then◌else◌,
}

pub record DynamicList {ℓ} (A : Type ℓ) : Type ℓ where
  pub ptr : Option (ℕ → A)
  pub size : ℕ
  pub capacity : ℕ

-- `dynamic_list::chunks_per_alloc`
abbrev pub chunks_per_alloc : ℕ
chunks_per_alloc = 16

abbrev pub aligned : ℕ → ℕ
aligned c = c + (chunks_per_alloc - c % chunks_per_alloc)

module _ {ℓ} {A : Type ℓ} where
  abbrev pub empty : DynamicList A
  empty = record { ptr = none; size = 0; capacity = 0 }

  abbrev pub is_null : Option (ℕ → A) → Bool
  is_null none = true
  is_null (some p) = false

  -- `true` for the return code 0.
  pub resize : Option (ℕ → A) → DynamicList A → ℕ → Bool × DynamicList A
  resize given l size =
      let capacity = aligned (if ltb l.capacity size then size else l.capacity) in
      if is_null l.ptr || ltb l.capacity size
      then elim given [
        | none ↦ (false, record { ptr = l.ptr; size = size; capacity = capacity })
        | some p ↦ (true, record { ptr = some p; size = size; capacity = capacity })
      ]
      else (true, record l { size = size })

  pub compress : Option (ℕ → A) → DynamicList A → ℕ → Bool × DynamicList A
  compress none l size = (false, record l { size = size; capacity = size })
  compress (some p) l size = (true, record { ptr = some p; size = size; capacity = size })

  pub store : Option (ℕ → A) → ℕ → A → Option (ℕ → A)
  store none i c = none
  store (some p) i c = some (λ k. if k == i then c else p k)

  -- `insert` of an object: the index of the element, `none` for `nullptr`.
  pub insert : Option (ℕ → A) → DynamicList A → A → Option ℕ × DynamicList A
  insert given l c =
      let (ok, l') = resize given l (l.size + 1) in
      if ok
      then (some (l'.size - 1), record l' { ptr = store l'.ptr (l'.size - 1) c })
      else (none, l')

  -- `storage::move` of elements to a lower index.
  pub shift : (ℕ → A) → ℕ → ℕ → ℕ → ℕ → A
  shift p dest src zero = p
  shift p dest src (suc n) = shift (λ k. if k == dest then p src else p k) (dest + 1) (src + 1) n

  pub remove : DynamicList A → ℕ → ℕ → DynamicList A
  remove l idx n =
      let moved : Option (ℕ → A) = elim l.ptr [
        | none ↦ none
        | some p ↦ some (shift p idx (idx + n) (l.size - (idx + n)))
      ] in
      record l { ptr = moved; size = l.size - 1 }

  -- `remove` of a reference, which is the element of the index `i` in the storage of the list.
  pub remove_reference : DynamicList A → ℕ → DynamicList A
  remove_reference l i = if ltb i l.size then remove l i 1 else l
