-- ===== src/Real/Alloc.antt =====
-- `alloc` over the table of regions.
use kinnow_os.Prelude.{
  ℕ, ◌+◌, ◌%◌, ◌^◌, ◌<◌, ◌≡◌, ◌≢◌, inl, inr, true, false, none, some, List, [], ◌∷◌, arith, ltb,
  Bool-cases, Option-cases, length,
}
use kinnow_os.Real.{
  is_used, Heap, Region, not_found, walk, Allocation, allocated, no_room, crashed, starved,
  try_region, alloc,
}
use kinnow_os.Real.Spec.{
  total, in_use, HasUsed, spec_alloc, IsSafe, spec_alloc_sizes, spec_alloc-HasUsed,
}
use kinnow_os.Real.Chain.{Chain, segs}
use kinnow_os.Real.Slots.{IsSpare}
use kinnow_os.Real.Carve.{Cut}
use kinnow_os.Real.Walk.{walk_lem}

-- The blocks of `r` are a chain from its head that tiles addresses below 2 ^ 64, and shorter than
-- `fuel`; two descriptors are to spare, and the test of `alloc` is right for each block.
pub record Ready (fuel size align : ℕ) (r : Region) : Type 0 where
  pub blocks : List ℕ
  pub chain : Chain r.heap (some 0) blocks
  pub short : length blocks < fuel
  pub small : r.base + total (segs r.heap blocks) < 2 ^ 64
  pub safe : IsSafe size align r.base (segs r.heap blocks)
  pub head_used : is_used (r.heap 0).flags ≡ true
  pub spare1 : ℕ
  pub spare2 : ℕ
  pub apart : spare1 ≢ spare2
  pub spare1-IsSpare : IsSpare r.heap spare1
  pub spare2-IsSpare : IsSpare r.heap spare2

-- The heap of `r` becomes `h`: the blocks tile as many bytes as before, `size` more are in use, by
-- a block at `p` that is aligned, and each block that was in use still is, where it was.
pub record Grants (size align : ℕ) (r : Region) (p : ℕ) (h : Heap) : Type 0 where
  pub before : List ℕ
  pub after : List ℕ
  pub chain_before : Chain r.heap (some 0) before
  pub chain_after : Chain h (some 0) after
  pub tiles : total (segs h after) ≡ total (segs r.heap before)
  pub more_used : in_use (segs h after) ≡ in_use (segs r.heap before) + size
  pub new_block : HasUsed p size r.base (segs h after)
  pub aligned : 0 < align → p % align ≡ 0
  pub old_blocks :
      (q n : ℕ) → HasUsed q n r.base (segs r.heap before) → HasUsed q n r.base (segs h after)

-- The region is not present, is too small, or has no block that passes the test.
pub data NoFit (size align : ℕ) (r : Region) : Type 0 where
  absent : r.present ≡ false → NoFit size align r
  too_small : r.size < size → NoFit size align r
  occupied :
      (is : List ℕ)
      → Chain r.heap (some 0) is
      → spec_alloc size align r.base (segs r.heap is) ≡ none
      → NoFit size align r

-- The first region with a fit grants the allocation, and the others stay as they are.
pub data Serves (size align : ℕ) : List Region → Allocation → Type 0 where
  exhausted : Serves size align [] no_room
  refused :
      {r : Region} {rs : List Region}
      → NoFit size align r
      → Serves size align rs no_room
      → Serves size align (r ∷ rs) no_room
  here :
      {r : Region} {rs : List Region} {p : ℕ} {h : Heap}
      → Grants size align r p h
      → Serves size align (r ∷ rs) (allocated p (record r { heap = h } ∷ rs))
  there :
      {r : Region} {rs rs' : List Region} {p : ℕ}
      → NoFit size align r
      → Serves size align rs (allocated p rs')
      → Serves size align (r ∷ rs) (allocated p (r ∷ rs'))

abbrev pub AllReady : ℕ → ℕ → ℕ → List Region → Type 0
AllReady fuel size align [] = Unit
AllReady fuel size align (r ∷ rs) =
    (r.present ≡ true → Ready fuel size align r) × AllReady fuel size align rs

skip_region :
    (size align : ℕ) (r : Region) (rs : List Region) (rest : Allocation)
    → NoFit size align r
    → Serves size align rs rest
    → Serves size align (r ∷ rs) (try_region r rs not_found rest)
unfolding try_region
skip_region size align r rs (allocated p rs') refusal s = there refusal s
skip_region size align r rs no_room refusal s = refused refusal s
skip_region size align r rs crashed refusal s = elim s [ ]
skip_region size align r rs starved refusal s = elim s [ ]

module _ (fuel size align : ℕ) (r : Region) (rs : List Region) (rest : Allocation)
    (later : Serves size align rs rest) (ready : Ready fuel size align r) where
  serve_region :
      Serves size align
        (r ∷ rs)
        (try_region r rs (walk fuel r.heap (some 0) r.base size align) rest)
  unfolding try_region
  serve_region =
      let found =
        walk_lem r.heap size align ready.spare1 ready.spare2 ready.head_used ready.apart
          ready.spare1-IsSpare ready.spare2-IsSpare fuel r.base ready.chain ready.short ready.safe
          ready.small in
      elim (Option-cases (spec_alloc size align r.base (segs r.heap ready.blocks))) [
        | inl e ↦
            rw (rw e at found)
              (skip_region size align r rs rest (occupied ready.blocks ready.chain e) later)
        | inr ((p, bs), e) ↦
            let c : Cut r.heap (some 0) ready.blocks bs p
                (walk fuel r.heap (some 0) r.base size align) =
              rw e at found in
            let (same, more) =
              spec_alloc_sizes size align r.base (segs r.heap ready.blocks) ready.safe e in
            let (new, aligned, old) =
              spec_alloc-HasUsed size align r.base (segs r.heap ready.blocks) ready.safe e in
            rw c.returns (
              here (record {
                before = ready.blocks;
                after = c.is';
                chain_before = ready.chain;
                chain_after = c.chain;
                tiles = rw c.shows same;
                more_used = rw c.shows more;
                new_block = rw c.shows new;
                aligned = aligned;
                old_blocks = rw c.shows old;
              }))
      ]

-- With every present region ready, `alloc` serves the request from the first region with a fit.
pub alloc_lem :
    (fuel size align : ℕ) (rs : List Region)
    → AllReady fuel size align rs
    → Serves size align rs (alloc fuel rs size align)
unfolding alloc
alloc_lem fuel size align [] ready = exhausted
alloc_lem fuel size align (r ∷ rs) ready =
    let later = alloc_lem fuel size align rs ready.1 in
    let skip = λ (refusal : NoFit size align r). skip_region size align r rs _ refusal later in
    elim (Bool-cases r.present) [
      | inr gone ↦ simp gone (skip (absent gone))
      | inl present ↦ elim (Bool-cases (ltb r.size size)) [
        | inl less ↦ simp (present, less) (skip (too_small (ground arith)))
        | inr fits ↦
            simp (present, fits) (serve_region fuel size align r rs _ later (ready.0 present))
      ]
    ]
