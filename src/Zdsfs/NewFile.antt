-- ===== src/Zdsfs/NewFile.antt =====
-- new_file: where it writes the control block of a new dataset, and which cylinders it takes.
use kinnow_os.Prelude.{
  ℕ, ◌≤◌, ◌≡◌, ◌%◌, ◌^◌, refl, Bool, false, none, some, List, take, if◌then◌else◌, Bool-cases, inl,
  inr,
}
use kinnow_os.Prelude.Int.{ℤ, pos}
use kinnow_os.Disk.{DiskLoc}
use kinnow_os.Zdsfs.{Dscb, Dasd, is_failure, vtoc_loc, new_dscb, new_file, allocation}
use kinnow_os.Zdsfs.Chain.{Chain}
use kinnow_os.Zdsfs.FreeSpace.{bounds, find_free_space-bounds}

module _ {Device : Type 0} (dasd : Dasd Device) where
  open dasd use {read_vtoc, write_dscb}

  -- On a disk with a chain of control blocks that starts at `start`, where its first block is read,
  -- new_file makes one write, to this place: the new block takes the place of the first one. It has
  -- the name and begins at the bound of the space that the blocks of the chain take. The result is
  -- 0 if there is storage for the data of the node, which keep the block, and else ALLOCATION.
  pub new_file-overwrites :
      {dev dev' end : Device} {start : DiskLoc} {r : ℤ} {n : ℕ} {ds : List Dscb} (given : Bool)
      (f : ℕ) (name : List ℕ)
      → read_vtoc dev vtoc_loc ≡ (r, start, dev')
      → is_failure r ≡ false
      → Chain dasd dev' start n ds end
      → n ≤ f
      → (block : Dscb) × (new_file dasd given f dev name
          ≡ some (
            if given then pos 0 else allocation,
            (write_dscb end start block).1,
            if given then some block else none,
          ))
        × (block.name ≡ take 44 name)
        × (block.start_cc ≡ (bounds ds (0, 0)).0 % 2 ^ 16)
        × (block.start_hh ≡ (bounds ds (0, 0)).1 % 2 ^ 16)
  unfolding new_file new_dscb
  new_file-overwrites {dev} {dev'} {end} {start} {r} {n} {ds} given f name vtoc ok chain fuel =
      let run = find_free_space-bounds dasd f vtoc ok chain fuel in
      (
        new_dscb name (bounds ds (0, 0)),
        elim (Bool-cases given) [ inl e ↦ rw (run, e) refl | inr e ↦ rw (run, e) refl ],
        refl,
        refl,
        refl,
      )
