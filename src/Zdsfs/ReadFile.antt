-- ===== src/Zdsfs/ReadFile.antt =====
-- read_file: the bytes of a dataset that lies on some tracks of one cylinder.
use kinnow_os.Prelude.{ℕ, zero, suc, ◌+◌, ◌<◌, ◌≡◌, List, [], ◌++◌, length}
use kinnow_os.Prelude.Int.{pos}
use kinnow_os.Disk.{DiskLoc}
use kinnow_os.Zdsfs.{Dscb, Dasd}

-- The contents of `n` tracks from `t` on.
unfoldable pub tracks : (ℕ → List ℕ) → ℕ → ℕ → List ℕ
tracks block t zero = []
tracks block t (suc n) = block t ++ tracks block (t + 1) n

-- The first record of a track.
abbrev pub at_track : ℕ → ℕ → DiskLoc
at_track c t = record { cylinder = c; track = t; record_no = 1 }

module _ {Device : Type 0} (dasd : Dasd Device) (d : Dscb) (block : ℕ → List ℕ) where
  open dasd use {read_block, last_loc}

  -- Each track of the cylinder `c` has one block, not empty, and a read of it moves the disk on to
  -- the next track.
  pub record IsSequential (c : ℕ) : Type 0 where
    pub after_read : Device → ℕ → Device
    pub reads :
        (dev : Device) (t : ℕ)
        → read_block dev (at_track c t) ≡ (pos (length (block t)), block t, after_read dev t)
    pub moves : (dev : Device) (t : ℕ) → last_loc (after_read dev t) ≡ at_track c (t + 1)
    pub filled : (t : ℕ) → 0 < length (block t)
