-- ===== src/User.antt =====
-- kernel/user.cxx: the lists of users and groups. A list holds the addresses of the names, which
-- stand in the byte memory; both lists have the same operations, and a group has no flags. The
-- locks of the lists are not modelled: a call runs alone.
pub mod Lookup
pub mod Tests
use kinnow_os.Prelude.{
  ℕ, zero, suc, ◌+◌, ◌%◌, Bool, true, false, Option, none, some, List, [], ◌∷◌, ◌++◌, ltb,
  if◌then◌else◌, length, get_elem?,
}
use kinnow_os.Prelude.Int.{is_zero, ℤ, pos, negsuc, sub_ℕ}
use kinnow_os.Storage.Memory.{Memory}
use kinnow_os.Storage.Text

pub record User : Type 0 where
  pub name : ℕ
  pub flags : ℕ

-- `static_cast<int8_t>`
pub id_of : ℕ → ℤ
id_of i = sub_ℕ ((i + 128) % 256) 128

-- `create`: `slot` is where the name of a new element stands, `none` where `insert` fails. `none` if
-- the fuel does not last for the name.
pub create : ℕ → Memory → List User → Option ℕ → ℕ → ℕ → Option (ℤ × Memory × List User)
create fuel m users none name flags = some (negsuc 0, m, users)
create fuel m users (some at) name flags = elim (Text.copy fuel m at name) [
  | none ↦ none
  | some (m', end) ↦
      some (id_of (length users), m', users ++ (record { name = at; flags = flags } ∷ []))
]

-- The loop of `get_by_name`, from index `i` on.
-- `none` if the fuel does not last for two names.
pub find : ℕ → Memory → List User → ℕ → ℕ → Option ℤ
find fuel m [] name i = some (negsuc 0)
find fuel m (u ∷ us) name i =
    let rest = find fuel m us name (i + 1) in
    elim (Text.compare fuel m u.name name) [
      | none ↦ none
      | some diff ↦ if is_zero diff then some (id_of i) else rest
    ]

pub get_by_name : ℕ → Memory → List User → ℕ → Option ℤ
get_by_name fuel m users name = find fuel m users name 0

-- `get_by_id`; `none` for an element out of the list.
pub get_by_id : List User → ℤ → Option User
get_by_id users (pos uid) = get_elem? users uid
get_by_id users (negsuc n) = none
