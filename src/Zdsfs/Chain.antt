-- ===== src/Zdsfs/Chain.antt =====
-- The chain of control blocks that a disk shows, from a location to its end.
use kinnow_os.Prelude.{◌⊎◌, ℕ, zero, suc, ◌≡◌, ◌≢◌, true, false, List, [], ◌∷◌}
use kinnow_os.Prelude.Int.{ℤ}
use kinnow_os.Disk.{DiskLoc}
use kinnow_os.Zdsfs.{Dscb, Dasd, is_failure, is_full, first_char}

-- A property of all blocks, and of one of them.
abbrev pub All : (Dscb → Type 0) → List Dscb → Type 0
All P [] = Unit {0}
All P (d ∷ ds) = P d × All P ds

abbrev pub Any : (Dscb → Type 0) → List Dscb → Type 0
Any P [] = ⊥
Any P (d ∷ ds) = P d ⊎ Any P ds

module _ {Device : Type 0} (dasd : Dasd Device) where
  open dasd use {read_dscb, last_loc}

  -- `Chain dev loc n ds dev'`: `n` reads from `loc` on give the blocks `ds`, of which only the last
  -- has no name, and leave the device `dev'`. A read of fewer bytes than a block counts for none.
  pub data Chain : Device → DiskLoc → ℕ → List Dscb → Device → Type 0 where
    stop :
        {dev dev' : Device} {loc : DiskLoc} {r : ℤ} {d : Dscb}
        → read_dscb dev loc ≡ (r, d, dev')
        → is_failure r ≡ false
        → is_full r ≡ true
        → first_char d ≡ 0
        → Chain dev loc (suc zero) (d ∷ []) dev'
    link :
        {dev dev' end : Device} {loc : DiskLoc} {r : ℤ} {d : Dscb} {n : ℕ} {ds : List Dscb}
        → read_dscb dev loc ≡ (r, d, dev')
        → is_failure r ≡ false
        → is_full r ≡ true
        → first_char d ≢ 0
        → Chain dev' (last_loc dev') n ds end
        → Chain dev loc (suc n) (d ∷ ds) end
    skip :
        {dev dev' end : Device} {loc : DiskLoc} {r : ℤ} {d : Dscb} {n : ℕ} {ds : List Dscb}
        → read_dscb dev loc ≡ (r, d, dev')
        → is_failure r ≡ false
        → is_full r ≡ false
        → Chain dev' (last_loc dev') n ds end
        → Chain dev loc (suc n) ds end
