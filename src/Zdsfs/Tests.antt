-- ===== src/Zdsfs/Tests.antt =====
-- A disk with two datasets, and instances of the theorems.
use kinnow_os.Prelude.{
  List, ℕ, zero, suc, ◌+◌, ◌≤◌, ◌≡◌, ◌⊎◌, refl, Option, none, false, some, [], ◌∷◌, ◌%◌, ◌^◌, take,
  arith, replicate,
}
use kinnow_os.Prelude.Int.{ℤ, pos, negsuc}
use kinnow_os.Disk.{DiskLoc}
use kinnow_os.Zdsfs.{Dscb, Dasd, find_free_space, new_file, bound, next_dscb, as_fdscb, expected}
use kinnow_os.Zdsfs.Chain.{All, Any, Chain, stop, link}
use kinnow_os.Zdsfs.FreeSpace.{bounds, find_free_space_lem}
use kinnow_os.Zdsfs.NewFile.{new_file-overwrites}
use kinnow_os.Zdsfs.ReadFile.{tracks, at_track}

abbrev dataset : ℕ → ℕ → Dscb
dataset letter cyl = record {
  name = letter ∷ [];
  format_id = b'1';
  start_cc = cyl;
  start_hh = 0;
  end_cc = cyl;
  end_hh = 2;
}

abbrev last_one : Dscb
last_one = record { name = []; format_id = 0; start_cc = 0; start_hh = 0; end_cc = 0; end_hh = 0 }

-- The block that the disk shows at a place of its chain.
abbrev shown : ℕ → Dscb
shown zero = dataset b'A' 5
shown (suc zero) = dataset b'B' 6
shown (suc (suc k)) = last_one

-- A disk knows the last block that was written, and how far it has been read.
abbrev SmallDisk : Type 0
SmallDisk = Option Dscb × ℕ

abbrev place : ℕ → DiskLoc
place k = record { cylinder = 5; track = k; record_no = 1 }

abbrev read_shown : SmallDisk → DiskLoc → ℤ × Dscb × SmallDisk
read_shown (some d, k) loc = (pos 140, d, (some d, k))
read_shown (none, k) loc = (pos 140, shown k, (none, k + 1))

abbrev small : Dasd SmallDisk
small = record {
  read_vtoc = λ dev loc. (pos 20, place 0, dev);
  read_dscb = read_shown;
  read_block = λ dev loc. (pos 3, 7 ∷ 8 ∷ 9 ∷ [], (dev.0, dev.1 + 1));
  write_dscb = λ dev loc d. (pos 140, (some d, dev.1));
  last_loc = λ dev. place dev.1;
}

two_datasets :
    Chain small (none, 0) (place 0) 3 (dataset b'A' 5 ∷ dataset b'B' 6 ∷ last_one ∷ []) (none, 3)
two_datasets =
    link refl refl refl (λ e. omega arith)
      (link refl refl refl (λ e. omega arith) (stop refl refl refl refl))

find_free_space_lem_example :
    (find_free_space small 3 (none, 0) ≡ some (pos 0, place 0, (6, 3), (none, 3)))
    × All (λ d. d.end_cc ≤ 6) (dataset b'A' 5 ∷ dataset b'B' 6 ∷ last_one ∷ [])
    × ((◌≡◌ {A = ℕ} 6 0)
        ⊎ Any (λ d. 6 ≡ d.end_cc + 1) (dataset b'A' 5 ∷ dataset b'B' 6 ∷ last_one ∷ []))
unfolding bound
find_free_space_lem_example =
    find_free_space_lem small 3 refl refl two_datasets (omega arith) 6 3 refl

-- Without storage for the data of the node.
new_file-overwrites_example :
    (block : Dscb) × (new_file small false 3 (none, 0) (replicate 44 b'C')
      ≡ some (negsuc 1, (some block, 3), none))
    × (block.name ≡ take 44 (replicate 44 b'C'))
    × (block.start_cc
        ≡ (bounds (dataset b'A' 5 ∷ dataset b'B' 6 ∷ last_one ∷ []) (0, 0)).0 % 2 ^ 16)
    × (block.start_hh
        ≡ (bounds (dataset b'A' 5 ∷ dataset b'B' 6 ∷ last_one ∷ []) (0, 0)).1 % 2 ^ 16)
new_file-overwrites_example =
    new_file-overwrites small false 3 (replicate 44 b'C') refl refl two_datasets (omega arith)

-- A disk with one block on each track, which knows the track behind the last read.
abbrev byte_track : ℕ → List ℕ
byte_track t = t ∷ 7 ∷ []

abbrev sequential : Dasd ℕ
sequential = record {
  read_vtoc = λ dev loc. (pos 20, place 0, dev);
  read_dscb = λ dev loc. (pos 140, last_one, dev);
  read_block = λ dev loc. (pos 2, byte_track loc.track, loc.track + 1);
  write_dscb = λ dev loc d. (pos 140, dev);
  last_loc = λ dev. at_track 5 dev;
}

three_tracks : tracks byte_track 0 3 ≡ 0 ∷ 7 ∷ 1 ∷ 7 ∷ 2 ∷ 7 ∷ []
unfolding tracks
three_tracks = refl

at_end : next_dscb small (none, 2) (place 2) ≡ (expected, last_one, place 3, (none, 3))
unfolding next_dscb as_fdscb
at_end = refl
