-- ===== src/Zdsfs.antt =====
-- kernel/zdsfs.cxx: the datasets of a disk, on the chain of its control blocks (DSCB). The handle of
-- the disk is a record of operations over a state of the device: what handle::read_disk and
-- write_disk do and the location that the driver gives afterwards. Of a control block the fields
-- are kept that the code looks at. The loops run on fuel, `none` where it runs out.
pub mod Chain
pub mod FreeSpace
pub mod NewFile
pub mod Lookup
pub mod ReadFile
mod Tests
use kinnow_os.Prelude.{
  ℕ, zero, suc, ◌+◌, ◌%◌, ◌^◌, Bool, not, Option, none, some, List, [], ◌∷◌, ltb, leb, ◌==◌,
  if◌then◌else◌, take, get_or, ◌&&◌, ◌++◌,
}
use kinnow_os.Prelude.Int.{ℤ, pos, negsuc, ltb_ℤ, eqb_ℤ, pos_part}
use kinnow_os.Disk.{DiskLoc}

-- `zdsfs::dscb_fmt1`
pub record Dscb : Type 0 where
  pub name : List ℕ
  pub format_id : ℕ
  pub start_cc : ℕ
  pub start_hh : ℕ
  pub end_cc : ℕ
  pub end_hh : ℕ

-- The reads give the value that is returned, what the buffer holds then, and the device.
pub record Dasd (Device : Type 0) : Type 0 where
  pub read_vtoc : Device → DiskLoc → ℤ × DiskLoc × Device
  pub read_dscb : Device → DiskLoc → ℤ × Dscb × Device
  pub read_block : Device → DiskLoc → ℤ × List ℕ × Device
  pub write_dscb : Device → DiskLoc → Dscb → ℤ × Device
  pub last_loc : Device → DiskLoc

-- `sizeof(dscb_fmt1)`
abbrev pub dscb_size : ℤ
dscb_size = pos 140

abbrev pub unavailable : ℤ
unavailable = negsuc 3

abbrev pub allocation : ℤ
allocation = negsuc 1

abbrev pub expected : ℤ
expected = negsuc 4

abbrev pub is_failure : ℤ → Bool
is_failure r = ltb_ℤ r (pos 0)

abbrev pub is_full : ℤ → Bool
is_full r = not (ltb_ℤ r dscb_size)

-- `dscb.name[0]`
abbrev pub first_char : Dscb → ℕ
first_char d = get_or d.name 0 0

abbrev pub vtoc_loc : DiskLoc
vtoc_loc = record { cylinder = 0; track = 0; record_no = 3 }

-- A location in the fields of `zdsfs::fdscb`.
unfoldable pub as_fdscb : DiskLoc → DiskLoc
as_fdscb loc = record {
  cylinder = loc.cylinder % 2 ^ 16;
  track = loc.track % 2 ^ 16;
  record_no = loc.record_no % 2 ^ 8;
}

-- The bounds of the space in use, `*lastcyl` and `*lasthead`, after a control block.
unfoldable pub bound : Dscb → ℕ × ℕ → ℕ × ℕ
bound d (cyl, head) =
    let (cyl', head') = if ltb cyl d.end_cc then (d.end_cc + 1, 0) else (cyl, head) in
    (cyl', if ltb head' d.end_hh then d.end_hh + 1 else head')

-- The control block that `new_file` makes; `name` has at least 44 bytes.
unfoldable pub new_dscb : List ℕ → ℕ × ℕ → Dscb
new_dscb name (cyl, head) = record {
  name = take 44 name;
  format_id = b'1';
  start_cc = cyl % 2 ^ 16;
  end_cc = (cyl % 2 ^ 16 + 1) % 2 ^ 16;
  start_hh = head % 2 ^ 16;
  end_hh = head % 2 ^ 16;
}

module _ {Device : Type 0} (dasd : Dasd Device) where
  open dasd use {read_vtoc, read_dscb, read_block, write_dscb, last_loc}

  -- `get_vtoc_chain_fdscb`, with the start of the chain.
  unfoldable pub get_vtoc_chain_fdscb : Device → ℤ × DiskLoc × Device
  get_vtoc_chain_fdscb dev =
      let (r, start, dev') = read_vtoc dev vtoc_loc in
      if is_failure r then (unavailable, start, dev') else (pos 0, start, dev')

  -- `next_dscb`: the block, where the next one is, and the device.
  unfoldable pub next_dscb : Device → DiskLoc → ℤ × Dscb × DiskLoc × Device
  next_dscb dev loc =
      let (r, d, dev') = read_dscb dev loc in
      if is_failure r
      then (unavailable, d, loc, dev')
      else (if is_full r && not (d.format_id == b'1') && first_char d == 0
          then (expected, d, as_fdscb (last_loc dev'), dev')
          else (pos 0, d, as_fdscb (last_loc dev'), dev'))

  -- The loop of `find_free_space`.
  unfoldable pub space_loop : ℕ → Device → DiskLoc → ℕ × ℕ → Option (ℤ × (ℕ × ℕ) × Device)
  space_loop zero dev loc last = none
  space_loop (suc f) dev loc last =
      let (r, d, dev') = read_dscb dev loc in
      let partial = space_loop f dev' (last_loc dev') last in
      let rest = space_loop f dev' (last_loc dev') (bound d last) in
      if is_failure r
      then some (unavailable, last, dev')
      else (if is_full r
          then (if first_char d == 0 then some (pos 0, bound d last, dev') else rest)
          else partial)

  abbrev with_start :
      DiskLoc → Option (ℤ × (ℕ × ℕ) × Device) → Option (ℤ × DiskLoc × (ℕ × ℕ) × Device)
  with_start start none = none
  with_start start (some (r, last, dev)) = some (r, start, last, dev)

  -- `find_free_space`, with the location in `fdscb`.
  unfoldable pub find_free_space : ℕ → Device → Option (ℤ × DiskLoc × (ℕ × ℕ) × Device)
  find_free_space f dev =
      let (r, start, dev') = get_vtoc_chain_fdscb dev in
      if is_failure r
      then some (unavailable, start, (0, 0), dev')
      else with_start start (space_loop f dev' start (0, 0))

  -- `new_file`, with the block that the data of the new node keep; `write_new` is the part behind
  -- `find_free_space`. `given` says whether there is storage for the data. That a node of the name
  -- is made below /TAPE and listed by the driver, before that, is not modelled.
  abbrev write_new :
      Bool → List ℕ → Option (ℤ × DiskLoc × (ℕ × ℕ) × Device) → Option (ℤ × Device × Option Dscb)
  write_new given name none = none
  write_new given name (some (r, start, last, dev)) =
      let block = new_dscb name last in
      let dev' = (write_dscb dev start block).1 in
      if is_failure r
      then some (unavailable, dev, none)
      else (if given then some (pos 0, dev', some block) else some (allocation, dev', none))

  unfoldable pub new_file : Bool → ℕ → Device → List ℕ → Option (ℤ × Device × Option Dscb)
  new_file given f dev name = write_new given name (find_free_space f dev)

  -- The loop of `get_fdscb`; `is_name` is the comparison with the name that is asked for.
  abbrev with_block : Option (ℤ × Dscb × Device) → Option (ℤ × Option Dscb × Device)
  with_block none = none
  with_block (some (r, d, dev)) = some (r, some d, dev)

  unfoldable pub lookup_loop : (List ℕ → Bool) → ℕ → Device → DiskLoc → Option (ℤ × Dscb × Device)
  lookup_loop is_name zero dev loc = none
  lookup_loop is_name (suc f) dev loc =
      let (r, d, dev') = read_dscb dev loc in
      let rest = lookup_loop is_name f dev' (last_loc dev') in
      if is_failure r
      then some (unavailable, d, dev')
      else (if is_full r
          then (if d.format_id == b'1'
              then (if is_name d.name
                  then some (expected, record d { format_id = b' ' }, dev')
                  else rest)
              else (if first_char d == 0 then some (expected, d, dev') else rest))
          else rest)

  -- `get_fdscb`
  unfoldable pub get_fdscb : (List ℕ → Bool) → ℕ → Device → Option (ℤ × Option Dscb × Device)
  get_fdscb is_name f dev =
      let (r, start, dev') = get_vtoc_chain_fdscb dev in
      if is_failure r
      then some (unavailable, none, dev')
      else with_block (lookup_loop is_name f dev' start)

  -- The loop of `read_file`: the bytes and their number from the location on.
  unfoldable pub read_loop : Dscb → ℕ → Device → DiskLoc → List ℕ → Option (ℤ × List ℕ × Device)
  read_loop d zero dev loc out = none
  read_loop d (suc f) dev loc out =
      let (r, block, dev') = read_block dev loc in
      let out' = out ++ take (pos_part r) block in
      let loc' = last_loc dev' in
      let rest = read_loop d f dev' loc' out' in
      if is_failure r
      then some (unavailable, out, dev')
      else (if eqb_ℤ r (pos 0)
          then some (pos 0, out, dev')
          else (if ltb d.end_hh loc'.track && leb d.end_cc loc'.cylinder
              then some (pos 0, out', dev')
              else rest))

  unfoldable pub read_file : ℕ → Device → Dscb → Option (ℤ × List ℕ × Device)
  read_file f dev d =
      read_loop d f dev (record { cylinder = d.start_cc; track = d.start_hh; record_no = 1 }) []
