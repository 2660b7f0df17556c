-- ===== src/Zdsfs/Lookup.antt =====
-- get_fdscb: it fails, also where it finds the dataset.
use kinnow_os.Prelude.{
  ℕ, zero, suc, ◌≤◌, ◌≡◌, ◌≢◌, inl, inr, refl, Bool, true, false, Option, some, List, arith, ◌==◌,
  Bool-cases, ==_iff, ==_ne,
}
use kinnow_os.Prelude.Int.{ℤ}
use kinnow_os.Disk.{DiskLoc}
use kinnow_os.Zdsfs.{
  Dscb, Dasd, is_failure, first_char, expected, lookup_loop, get_fdscb, get_vtoc_chain_fdscb,
  vtoc_loc,
}
use kinnow_os.Zdsfs.Chain.{All, Chain, stop, link, skip}

module _ {Device : Type 0} (dasd : Dasd Device) where
  open dasd use {read_vtoc, read_dscb, last_loc}

  -- The search along a chain ends in an error, whatever the name, unless the block at the end has
  -- the format of a dataset.
  lookup_loop-fails :
      (is_name : List ℕ → Bool) {dev end : Device} {loc : DiskLoc} {n : ℕ} {ds : List Dscb}
      → Chain dasd dev loc n ds end
      → All (λ d. first_char d ≡ 0 → d.format_id ≢ b'1') ds
      → (f : ℕ) → n ≤ f
      → (r : ℤ) × (d : Dscb) × (dev' : Device) × (lookup_loop dasd is_name f dev loc
          ≡ some (r, d, dev'))
        × (is_failure r ≡ true)
  unfolding lookup_loop
  lookup_loop-fails is_name (stop e ok full last_one) plain zero h = absurd (omega arith)
  lookup_loop-fails is_name (link e ok full named rest) plain zero h = absurd (omega arith)
  lookup_loop-fails is_name (skip e ok less rest) plain zero h = absurd (omega arith)
  lookup_loop-fails is_name (stop {dev'} {d} e ok full last_one) plain (suc f) h = (
    expected,
    d,
    dev',
    rw
        (
          e,
          ok,
          full,
          ==_ne d.format_id b'1' (plain.0 last_one),
          (==_iff (first_char d) 0).1 last_one,
        )
        refl,
    refl,
  )
  lookup_loop-fails is_name (link {dev'} {d} e ok full named rest) plain (suc f) h =
      let next = lookup_loop-fails is_name rest plain.1 f (omega arith) in
      elim (Bool-cases (d.format_id == b'1')) [
        | inl dataset ↦ elim (Bool-cases (is_name d.name)) [
          | inl it ↦ (
            expected,
            record d { format_id = b' ' },
            dev',
            rw (e, ok, full, dataset, it) refl,
            refl,
          )
          | inr other ↦ rw (e, ok, full, dataset, other) next
        ]
        | inr plain_block ↦ rw (e, ok, full, plain_block, ==_ne (first_char d) 0 named) next
      ]
  lookup_loop-fails is_name (skip e ok less rest) plain (suc f) h =
      rw (e, ok, less) (lookup_loop-fails is_name rest plain f (omega arith))

  -- On a disk with a chain of control blocks whose end is of another format, get_fdscb returns an
  -- error for every name, also for that of a dataset of the chain.
  pub get_fdscb-fails :
      (is_name : List ℕ → Bool) {dev dev' end : Device} {start : DiskLoc} {r : ℤ} {n : ℕ}
      {ds : List Dscb} (f : ℕ)
      → read_vtoc dev vtoc_loc ≡ (r, start, dev')
      → is_failure r ≡ false
      → Chain dasd dev' start n ds end
      → All (λ d. first_char d ≡ 0 → d.format_id ≢ b'1') ds
      → n ≤ f
      → (code : ℤ) × (found : Option Dscb) × (after : Device) × (get_fdscb dasd is_name f dev
          ≡ some (code, found, after))
        × (is_failure code ≡ true)
  unfolding get_fdscb get_vtoc_chain_fdscb
  get_fdscb-fails is_name f vtoc ok chain plain fuel =
      let search = lookup_loop-fails is_name chain plain f fuel in
      (search.0, some (search.1), search.2, rw (vtoc, ok, search.3) refl, search.4)
