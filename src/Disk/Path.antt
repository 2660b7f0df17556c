-- ===== src/Disk/Path.antt =====
-- kernel/vdisk.cxx: paths. A path is the list of its characters without the end byte. The first
-- characters of a path that are letters choose children by their place, one letter a level; behind a
-- colon and a separator the names of the nodes follow, with separators in between.
pub mod Terminates
pub mod Reaches
pub mod Drives
pub mod Created
pub mod Init
use kinnow_os.Prelude.{
  ℕ, zero, suc, ◌+◌, ◌-◌, Bool, true, false, not, ◌&&◌, ◌||◌, Option, none, some, List, [], ◌∷◌,
  leb, ◌==◌, if◌then◌else◌, length, get_elem?,
}
use kinnow_os.Prelude.Int.{is_zero, ℤ, pos, ◌+ℤ◌, sub_ℕ}
use kinnow_os.Locale.{Charset, native, ebcdic_1047, convert}
use kinnow_os.Disk.{Driver, Node}
use kinnow_os.Disk.NodeFlags
use kinnow_os.Disk.Perms.{Caller}
use kinnow_os.Disk.Handle.{Handle, open_handle}
use kinnow_os.Disk.Nodes.{Disk, text_of, put_node, create_node}

abbrev pub is_separator : ℕ → Bool
is_separator c = c == b'/' || (c == b'\\' || c == b'.')

abbrev pub is_letter : ℕ → Bool
is_letter c = leb b'A' c && leb c b'Z' || leb b'a' c && leb c b'z'

-- `get_drive` of the path's first character, a `char` without a sign; `none` where `locale::convert`
-- has no value.
pub get_drive : ℕ → Option ℕ
unfolding convert
get_drive c = elim (convert native ebcdic_1047 c) [
  | none ↦ none
  | some letter ↦ some (
      if leb b'A' letter && leb letter b'I'
      then letter - b'A'
      else if leb b'J' letter && leb letter b'R'
      then letter - b'J'
      else if leb b'S' letter && leb letter b'Z'
      then letter - b'S'
      else letter)
]

-- The characters up to the next separator (`storage_string::break_p`), and those behind it.
pub segment : List ℕ → List ℕ
segment [] = []
segment (c ∷ cs) = if is_separator c then [] else c ∷ segment cs

pub behind : List ℕ → List ℕ
behind [] = []
behind (c ∷ cs) = if is_separator c then cs else behind cs

-- `storage::compare` of two equally long lists of bytes: the sum of the differences.
pub compare_bytes : List ℕ → List ℕ → ℤ → ℤ
compare_bytes [] ys diff = diff
compare_bytes (x ∷ xs) [] diff = diff
compare_bytes (x ∷ xs) (y ∷ ys) diff = compare_bytes xs ys (diff +ℤ sub_ℕ x y)

-- Does the segment name a node? Equal length, and a sum of differences that is zero.
unfoldable pub is_named : List ℕ → List ℕ → Bool
unfolding compare_bytes
is_named seg name = length name == length seg && is_zero (compare_bytes seg name (pos 0))

pub data Match : Type 0 where
  same : ℕ → Match
  other : Match
  retargeted : Match

-- `found` a node, `nullptr`, the panic, or no fuel.
pub data Resolved : Type 0 where
  found : ℕ → Resolved
  missing : Resolved
  panicked : Resolved
  out_of_fuel : Resolved

abbrev pub root_path : List ℕ
root_path = b'/' ∷ []

abbrev pub system_name : List ℕ
system_name = b'S' ∷ b'Y' ∷ b'S' ∷ b'T' ∷ b'E' ∷ b'M' ∷ []

abbrev pub system_path : List ℕ
system_path = b'/' ∷ system_name

abbrev pub devices_name : List ℕ
devices_name = b'D' ∷ b'E' ∷ b'V' ∷ b'I' ∷ b'C' ∷ b'E' ∷ b'S' ∷ []

module _ {Device : Type 0} where
  unfoldable pub requests_node : Node Device → Bool
  requests_node n = elim n.driver [ none ↦ false | some d ↦ d.request_node ]

  -- The loop over the children.
  unfoldable pub match_child : Disk Device → List ℕ → List ℕ → Match
  unfolding requests_node is_named text_of
  match_child s seg [] = other
  match_child s seg (i ∷ is) =
      let n = s.node i in
      if requests_node n
      then retargeted
      else if is_named seg (text_of n.name)
      then same i
      else match_child s seg is

  -- From the label `find_file` on.
  unfoldable pub find_file : ℕ → Disk Device → ℕ → List ℕ → Resolved
  unfolding segment behind match_child
  find_file zero s i path = out_of_fuel
  find_file (suc fuel) s i [] = found i
  find_file (suc fuel) s i (c ∷ cs) = elim (match_child s (segment (c ∷ cs)) (s.node i).children) [
    | other ↦ missing
    | retargeted ↦ panicked
    | same j ↦ find_file fuel s j (behind (c ∷ cs))
  ]

  -- The child that a letter chooses, `none` if there is none at its place.
  pub letter_child : Disk Device → ℕ → ℕ → Option ℕ
  unfolding get_drive
  letter_child s i c = elim (get_drive c) [
    | none ↦ none
    | some letter ↦ get_elem? (s.node i).children letter
  ]

  -- The loop over the letters: the node it comes to and the rest of the path.
  pub follow_letters : Disk Device → ℕ → List ℕ → Option (ℕ × List ℕ)
  unfolding letter_child
  follow_letters s i [] = some (i, [])
  follow_letters s i (c ∷ cs) =
      let rest = λ (j : ℕ). follow_letters s j cs in
      if not (is_letter c)
      then some (i, c ∷ cs)
      else elim (letter_child s i c) [ none ↦ none | some j ↦ rest j ]

  -- Behind the letters: a colon and a separator, or the node is found.
  pub behind_letters : ℕ → Disk Device → ℕ → List ℕ → Resolved
  unfolding find_file
  behind_letters fuel s i [] = found i
  behind_letters fuel s i (c ∷ []) = found i
  behind_letters fuel s i (c ∷ d ∷ cs) =
      if not (c == b':')
      then found i
      else if not (is_separator d)
      then found i
      else find_file fuel s i cs

  pub resolve_path_relative : ℕ → Disk Device → ℕ → List ℕ → Resolved
  unfolding follow_letters behind_letters find_file
  resolve_path_relative fuel s i [] = found i
  resolve_path_relative fuel s i (c ∷ cs) =
      if is_separator c then find_file fuel s i cs else elim (follow_letters s i (c ∷ cs)) [
        | none ↦ missing
        | some (j, rest) ↦ behind_letters fuel s j rest
      ]

  -- `resolve_path`, from the node 0, which is the root.
  pub resolve_path : ℕ → Disk Device → List ℕ → Resolved
  unfolding resolve_path_relative
  resolve_path fuel s path = resolve_path_relative fuel s 0 path

  -- `node::create` of a path and a name; a path that is not found stands for the root. `none` where
  -- the resolution panics.
  pub create_path :
      ℕ
      → Caller
      → Option ℕ
      → Option ℕ
      → Disk Device
      → List ℕ
      → List ℕ
      → Option (Option ℕ × Disk Device)
  unfolding resolve_path create_node
  create_path fuel c slot stray s path name = elim (resolve_path fuel s path) [
    | found i ↦ some (create_node c slot stray s i name)
    | missing ↦ some (create_node c slot stray s 0 name)
    | panicked ↦ none
    | out_of_fuel ↦ none
  ]

  -- `handle::open_path`
  pub open_path :
      ℕ → Bool → Disk Device → List ℕ → ℕ → Option (Option (Handle Device) × Disk Device)
  unfolding resolve_path open_handle
  open_path fuel given s path flags =
      let opened : ℕ → Option (Handle Device) × Disk Device = λ i.
        let (h, dev) = open_handle given (s.node i) s.device flags in
        (h, record s { device = dev }) in
      elim (resolve_path fuel s path) [
        | found i ↦ some (opened i)
        | missing ↦ some (none, s)
        | panicked ↦ none
        | out_of_fuel ↦ none
      ]

  -- `virtual_disk::init`: all permissions for the root, and the nodes of the base file system. Each
  -- of the two takes its storage, and whether the list of its parent can grow, as an argument.
  pub init :
      ℕ → Caller → Option ℕ × Option ℕ → Option ℕ × Option ℕ → Disk Device → Option (Disk Device)
  init fuel c (slot1, stray1) (slot2, stray2) s =
      let s1 = put_node s 0 (record (s.node 0) {
        user_flags = NodeFlags.all;
        group_flags = NodeFlags.all;
        sys_flags = NodeFlags.all;
      }) in
      elim (create_path fuel c slot1 stray1 s1 root_path system_name) [
        | none ↦ none
        | some (first, s2) ↦ elim (create_path fuel c slot2 stray2 s2 system_path devices_name) [
          | none ↦ none
          | some (second, s3) ↦ some s3
        ]
      ]
