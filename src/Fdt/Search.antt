-- ===== src/Fdt/Search.antt =====
-- kernel/fdt.cxx, get_node, where the native character set is ASCII. `tmpbuf` is where storage for
-- the name is, `none` where there is none to be had; that it is given back is not modelled. On fuel,
-- `none` where it runs out.
pub mod Nodes
pub mod Tree
pub mod Unit
mod Tests
use kinnow_os.Prelude.{ℕ, zero, suc, ◌+◌, Bool, Option, none, some, ◌==◌, if◌then◌else◌}
use kinnow_os.Prelude.Int.{is_zero}
use kinnow_os.Storage.Memory
use kinnow_os.Storage.Memory.{Memory, write}
use kinnow_os.Storage.Text
use kinnow_os.Fdt.Walk.{word_at, begin_node, prop, end, padding, behind_prop}

-- An end byte at the place that `find_char` gives.
abbrev pub cut_at : Memory → Option ℕ → Memory
cut_at m none = m
cut_at m (some a) = write m a 0

unfoldable pub cut : ℕ → Memory → ℕ → ℕ → Option Memory
cut fuel m text c = elim (Text.find_char fuel m text c) [
  | none ↦ none
  | some place ↦ some (cut_at m place)
]

-- What a search goes on with: the memory and the key behind the next slash; `none` where the key has
-- no more slash.
unfoldable pub next_name : ℕ → Memory → ℕ → ℕ → Option (Option (Memory × ℕ))
next_name fuel m tmpbuf key = elim (Text.find_char fuel m key b'/') [
  | none ↦ none
  | some none ↦ some none
  | some (some slash) ↦ elim (Text.copy fuel m tmpbuf (slash + 1)) [
    | none ↦ none
    | some (m', s) ↦ some (some (m', slash + 1))
  ]
]

-- `storage::compare` of the name of a node at `p` with the one in `tmpbuf`, which is cut before: the
-- memory, and whether they compare as equal.
unfoldable pub is_named : ℕ → Memory → ℕ → ℕ → Option (Memory × Bool)
is_named fuel m tmpbuf p = elim (cut fuel m tmpbuf b'@') [
  | none ↦ none
  | some m1 ↦ elim (cut fuel m1 tmpbuf b'/') [
    | none ↦ none
    | some m2 ↦ elim (Text.length fuel m2 tmpbuf) [
      | none ↦ none
      | some len ↦ some (m2, is_zero (Memory.compare m2 p tmpbuf len))
    ]
  ]
]

-- The loop of `get_node`: the name of the node that is found.
unfoldable pub search : ℕ → Memory → ℕ → ℕ → ℕ → Option (Option ℕ)
search zero m off key tmpbuf = none
search (suc fuel) m off key tmpbuf =
    let token = word_at m off in
    let p = off + 4 in
    let skip : Memory → ℕ → Option (Option ℕ) = λ m' key'. elim (Text.length fuel m' p) [
      | none ↦ none
      | some n ↦ search fuel m' (padding (p + n)) key' tmpbuf
    ] in
    let entered : Memory → Option (Option ℕ) = λ m'. elim (next_name fuel m' tmpbuf key) [
      | none ↦ none
      | some none ↦ some (some p)
      | some (some (m'', key')) ↦ skip m'' key'
    ] in
    if token == begin_node
    then elim (is_named fuel m tmpbuf p) [
      | none ↦ none
      | some (m', same) ↦ if same then entered m' else skip m' key
    ]
    else if token == prop
    then search fuel m (behind_prop m p) key tmpbuf
    else if token == end
    then some none
    else search fuel m p key tmpbuf

-- `get_node`; the walk starts at the header.
unfoldable pub get_node : ℕ → Memory → ℕ → ℕ → Option ℕ → Option (Option ℕ)
get_node fuel m hdr key given = elim (Text.find_char fuel m key b'/') [
  | none ↦ none
  | some none ↦ some none
  | some (some slash) ↦ elim given [
    | none ↦ some none
    | some tmpbuf ↦ elim (Text.copy fuel m tmpbuf (slash + 1)) [
      | none ↦ none
      | some (m', s) ↦ search fuel m' hdr (slash + 1) tmpbuf
    ]
  ]
]
