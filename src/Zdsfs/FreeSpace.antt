-- ===== src/Zdsfs/FreeSpace.antt =====
-- find_free_space over a chain of control blocks: what it returns, and what it promises.
use kinnow_os.Prelude.{
  ℕ, zero, suc, ◌+◌, ◌≤◌, ◌≡◌, ◌⊎◌, inl, inr, refl, false, some, List, [], ◌∷◌, arith, ==_iff,
  ==_ne, ltb, if◌then◌else◌,
}
use kinnow_os.Prelude.Int.{ℤ, pos}
use kinnow_os.Disk.{DiskLoc}
use kinnow_os.Zdsfs.{
  Dscb, Dasd, is_failure, first_char, bound, space_loop, find_free_space, get_vtoc_chain_fdscb,
  vtoc_loc,
}
use kinnow_os.Zdsfs.Chain.{All, Any, Chain, stop, link, skip}

-- The bounds after all control blocks of a chain.
abbrev pub bounds : List Dscb → ℕ × ℕ → ℕ × ℕ
bounds [] last = last
bounds (d ∷ ds) last = bounds ds (bound d last)

bound-cyl :
    (d : Dscb) (last : ℕ × ℕ)
    → (bound d last).0 ≡ (if ltb last.0 d.end_cc then d.end_cc + 1 else last.0)
unfolding bound
bound-cyl d (cyl, head) = ground arith

bounds-grow : (ds : List Dscb) (last : ℕ × ℕ) → last.0 ≤ (bounds ds last).0
bounds-grow [] last = omega arith
bounds-grow (d ∷ ds) last = ground (arith, bounds-grow ds (bound d last), bound-cyl d last)

bounds-above :
    (ds : List Dscb) (last : ℕ × ℕ) (c : ℕ) → (bounds ds last).0 ≤ c → All (λ d. d.end_cc ≤ c) ds
bounds-above [] last c h = tt
bounds-above (d ∷ ds) last c h = (
  ground (arith, bounds-grow ds (bound d last), bound-cyl d last),
  bounds-above ds (bound d last) c h,
)

bounds-source :
    (ds : List Dscb) (last : ℕ × ℕ) (c : ℕ)
    → (bounds ds last).0 ≡ c
    → (c ≡ last.0) ⊎ Any (λ d. c ≡ d.end_cc + 1) ds
bounds-source [] last c h = ground arith
bounds-source (d ∷ ds) last c h = elim (bounds-source ds (bound d last) c h) [
  | inl e ↦ ground (arith, bound-cyl d last)
  | inr later ↦ inr (inr later)
]

module _ {Device : Type 0} (dasd : Dasd Device) where
  open dasd use {read_dscb, read_vtoc, last_loc}

  space_loop_lem :
      {dev end : Device} {loc : DiskLoc} {n : ℕ} {ds : List Dscb}
      → Chain dasd dev loc n ds end
      → (f : ℕ) (last : ℕ × ℕ) → n ≤ f
      → space_loop dasd f dev loc last ≡ some (pos 0, bounds ds last, end)
  unfolding space_loop
  space_loop_lem (stop e ok full last_one) zero last h = absurd (omega arith)
  space_loop_lem (link e ok full named rest) zero last h = absurd (omega arith)
  space_loop_lem (skip e ok less rest) zero last h = absurd (omega arith)
  space_loop_lem (stop {d} e ok full last_one) (suc f) last h =
      rw (e, ok, full, (==_iff (first_char d) 0).1 last_one) refl
  space_loop_lem (link {d} e ok full named rest) (suc f) last h =
      rw (e, ok, full, ==_ne (first_char d) 0 named)
        (space_loop_lem rest f (bound d last) (omega arith))
  space_loop_lem (skip e ok less rest) (suc f) last h =
      rw (e, ok, less) (space_loop_lem rest f last (omega arith))

  module _ {dev dev' end : Device} {start : DiskLoc} {r : ℤ} {n : ℕ} {ds : List Dscb} (f : ℕ)
      (vtoc : read_vtoc dev vtoc_loc ≡ (r, start, dev')) (ok : is_failure r ≡ false)
      (chain : Chain dasd dev' start n ds end) (fuel : n ≤ f) where
    vtoc_read : get_vtoc_chain_fdscb dasd dev ≡ (pos 0, start, dev')
    unfolding get_vtoc_chain_fdscb
    vtoc_read = rw (vtoc, ok) refl

    pub find_free_space-bounds :
        find_free_space dasd f dev ≡ some (pos 0, start, bounds ds (0, 0), end)
    unfolding find_free_space
    find_free_space-bounds = rw (vtoc_read, space_loop_lem chain f (0, 0) fuel) refl

    -- Over a chain of control blocks find_free_space returns 0, the location where the chain starts,
    -- and a cylinder in front of which no dataset of the chain ends: 0 or the one behind the end of
    -- a dataset.
    pub find_free_space_lem :
        (c h : ℕ)
        → bounds ds (0, 0) ≡ (c, h)
        → (find_free_space dasd f dev ≡ some (pos 0, start, (c, h), end))
          × All (λ d. d.end_cc ≤ c) ds
          × ((c ≡ 0) ⊎ Any (λ d. c ≡ d.end_cc + 1) ds)
    find_free_space_lem c h e =
        let first : (bounds ds (0, 0)).0 ≡ c = rw e in
        (
          rw (← e) find_free_space-bounds,
          bounds-above ds (0, 0) c (omega arith),
          bounds-source ds (0, 0) c first,
        )
