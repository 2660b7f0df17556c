-- ===== src/Real/Spec.antt =====
-- What `alloc` promises for one region, on the list of its blocks in address order.
use kinnow_os.Prelude.{
  ℕ, ◌+◌, ◌-◌, ◌%◌, ◌≤◌, ◌<◌, ◌≡◌, refl, ◌⊎◌, inl, inr, false, Option, none, some, List, [], ◌∷◌,
  ◌++◌, arith, ◌==◌, if◌then◌else◌, Bool-cases, Option-cases, subst, ◌*◌, ◌/◌,
}
use native.Mathlib.Nat.{div-add-mod', mul-mod_left}
use kinnow_os.Real.{is_unfit, Flag, free, used, is_used}

-- A block without its descriptor.
pub record Seg : Type 0 where
  pub flags : Flag
  pub size : ℕ

abbrev pub seg : Flag → ℕ → Seg
seg f n = record { flags = f; size = n }

-- A free block of `n` bytes, none for `n` 0.
abbrev pub gap : ℕ → List Seg
gap n = if n == 0 then [] else seg free n ∷ []

-- The greatest multiple of `align` up to the last start that leaves room for `size` bytes.
unfoldable pub start : ℕ → ℕ → ℕ → ℕ → ℕ
start cur bsize size align =
    if align == 0 then cur + bsize - size else cur + bsize - size - (cur + bsize - size) % align

-- A block is cut in up to three: a free front, the allocation, a free rest.
unfoldable pub cut : ℕ → ℕ → ℕ → List Seg → List Seg
cut front size rest bs = gap front ++ (seg used size ∷ (gap rest ++ bs))

-- The first block that fits is cut.
unfoldable pub spec_alloc : ℕ → ℕ → ℕ → List Seg → Option (ℕ × List Seg)
spec_alloc size align cur [] = none
spec_alloc size align cur (b ∷ bs) =
    let p = start cur b.size size align in
    let here = cut (p - cur) size (cur + b.size - (p + size)) bs in
    let rest = spec_alloc size align (cur + b.size) bs in
    let later : Option (ℕ × List Seg) = elim rest [
      | none ↦ none
      | some (q, bs') ↦ some (q, b ∷ bs')
    ] in
    if is_unfit b.flags b.size cur size align then later else some (p, here)

abbrev pub total : List Seg → ℕ
total [] = 0
total (b ∷ bs) = b.size + total bs

-- The bytes that are in use.
abbrev pub in_use : List Seg → ℕ
in_use [] = 0
in_use (b ∷ bs) = (if is_used b.flags then b.size else 0) + in_use bs

-- A block in use of `n` bytes stands at `p`, in a list that begins at `cur`.
abbrev pub HasUsed : ℕ → ℕ → ℕ → List Seg → Type 0
HasUsed p n cur [] = ⊥
HasUsed p n cur (b ∷ bs) =
    ((cur ≡ p) × (b.flags ≡ used) × (b.size ≡ n)) ⊎ HasUsed p n (cur + b.size) bs

cut_sizes :
    (front size rest : ℕ) (bs : List Seg)
    → (total (cut front size rest bs) ≡ front + size + rest + total bs)
      × (in_use (cut front size rest bs) ≡ size + in_use bs)
unfolding cut
cut_sizes front size rest bs = ground arith

floor_mod : (x a : ℕ) → (x - x % a) % a ≡ 0
floor_mod x a =
    let e : x - x % a ≡ x / a * a = omega (arith, div-add-mod' x a) in rw e (mul-mod_left (x / a) a)

-- No block that passes the test has its last aligned start in front of it.
unfoldable pub IsSafe : ℕ → ℕ → ℕ → List Seg → Type 0
IsSafe size align cur [] = Unit
IsSafe size align cur (b ∷ bs) =
    (is_unfit b.flags b.size cur size align ≡ false → cur ≤ start cur b.size size align)
    × IsSafe size align (cur + b.size) bs

-- A block that passes the test holds the whole of the allocation, at an aligned address.
pub fit_bounds :
    (b : Seg) (cur size align : ℕ)
    → is_unfit b.flags b.size cur size align ≡ false
    → cur ≤ start cur b.size size align
    → let p = start cur b.size size align in
      (is_used b.flags ≡ false)
      × (size ≤ b.size)
      × (p + size ≤ cur + b.size)
      × ((0 < align) → p % align ≡ 0)
unfolding is_unfit start
fit_bounds b cur size align h le = (
  ground arith,
  ground arith,
  ground arith,
  λ pos. ground (arith, floor_mod (cur + b.size - size) align),
)

HasUsed-gap :
    (p n cur front : ℕ) (bs : List Seg)
    → HasUsed p n (cur + front) bs
    → HasUsed p n cur (gap front ++ bs)
HasUsed-gap p n cur front bs h = elim (Bool-cases (front == 0)) [
  | inl z ↦ let e : cur + front ≡ cur = ground arith in rw z (rw e at h)
  | inr nz ↦ rw nz (inr h)
]

HasUsed-cut :
    (p n cur front size rest : ℕ) (bs : List Seg)
    → HasUsed p n (cur + (front + size + rest)) bs
    → HasUsed p n cur (cut front size rest bs)
unfolding cut
HasUsed-cut p n cur front size rest bs h =
    let e : cur + (front + size + rest) ≡ cur + front + size + rest = omega arith in
    HasUsed-gap p n cur front _ (inr (HasUsed-gap p n (cur + front + size) rest bs (rw e at h)))

HasUsed-cut_self :
    (cur front size rest : ℕ) (bs : List Seg)
    → HasUsed (cur + front) size cur (cut front size rest bs)
unfolding cut
HasUsed-cut_self cur front size rest bs =
    HasUsed-gap (cur + front) size cur front _ (inl (refl, refl, refl))

-- An allocation keeps the bytes that the blocks tile, and makes `size` more of them used.
pub spec_alloc_sizes :
    (size align cur : ℕ) (bs : List Seg) {p : ℕ} {bs' : List Seg}
    → IsSafe size align cur bs
    → spec_alloc size align cur bs ≡ some (p, bs')
    → (total bs' ≡ total bs) × (in_use bs' ≡ in_use bs + size)
unfolding spec_alloc IsSafe
spec_alloc_sizes size align cur [] safe h = cc
spec_alloc_sizes size align cur (b ∷ bs) safe h =
    let p = start cur b.size size align in
    elim (Bool-cases (is_unfit b.flags b.size cur size align)) [
      | inr fit ↦ ground (
        arith,
        fit_bounds b cur size align fit (safe.0 fit),
        cut_sizes (p - cur) size (cur + b.size - (p + size)) bs,
      )
      | inl unfit ↦ elim (Option-cases (spec_alloc size align (cur + b.size) bs)) [
        | inl e ↦ absurd (ground (arith, e))
        | inr (r, e) ↦ ground (arith, spec_alloc_sizes size align (cur + b.size) bs safe.1 e)
      ]
    ]

-- Every block that was in use stays where it was and as long, and the allocation is a block in use
-- of `size` bytes at the address that is returned, a multiple of `align` if that is not 0.
pub spec_alloc-HasUsed :
    (size align cur : ℕ) (bs : List Seg) {p : ℕ} {bs' : List Seg}
    → IsSafe size align cur bs
    → spec_alloc size align cur bs ≡ some (p, bs')
    → HasUsed p size cur bs'
      × (0 < align → p % align ≡ 0)
      × ((q n : ℕ) → HasUsed q n cur bs → HasUsed q n cur bs')
unfolding spec_alloc IsSafe
spec_alloc-HasUsed size align cur [] safe h = cc
spec_alloc-HasUsed size align cur (b ∷ bs) {p = p'} {bs' = bs'} safe h =
    let p = start cur b.size size align in
    elim (Bool-cases (is_unfit b.flags b.size cur size align)) [
      | inr fit ↦
          let low = safe.0 fit in
          let (free_now, small, room, aligned) = fit_bounds b cur size align fit (safe.0 fit) in
          let rest = cur + b.size - (p + size) in
          let front = p - cur in
          let p_eq : cur + front ≡ p' = ground arith in
          let bs_eq : bs' ≡ cut front size rest bs = ground arith in
          let same : cur + b.size ≡ cur + (front + size + rest) = ground arith in
          (
            rw (bs_eq, ← p_eq) (HasUsed-cut_self cur front size rest bs),
            λ pos. ground (arith, aligned pos),
            λ q n has. rw bs_eq (
                HasUsed-cut q n cur front size rest bs (
                  rw (← same) (elim has [
                    | inl here ↦ absurd (ground (arith, here.1, free_now))
                    | inr later ↦ later
                  ]))),
          )
      | inl unfit ↦ elim (Option-cases (spec_alloc size align (cur + b.size) bs)) [
        | inl e ↦ absurd (ground (arith, e))
        | inr ((q, bs''), e) ↦
            let (new, aligned, old) = spec_alloc-HasUsed size align (cur + b.size) bs safe.1 e in
            let p_eq : q ≡ p' = ground arith in
            let bs_eq : bs' ≡ b ∷ bs'' = ground arith in
            (
              rw bs_eq (subst (λ t. HasUsed t size cur (b ∷ bs'')) p_eq (inr new)),
              λ pos. rw (← p_eq) (aligned pos),
              λ a n has.
                  rw bs_eq (elim has [ inl here ↦ inl here | inr later ↦ inr (old a n later) ]),
            )
      ]
    ]
