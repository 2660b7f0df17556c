-- ===== src/User/Lookup.antt =====
-- What the lookups find.
use kinnow_os.Prelude.{
  ℕ, suc, ◌+◌, ◌%◌, ◌<◌, ◌≡◌, refl, Option, none, some, List, [], ◌∷◌, ◌++◌, arith, ◌==◌,
  if◌then◌else◌, Bool-cases, inl, inr, length, get_elem?,
}
use kinnow_os.Prelude.Int.{ℤ, pos, negsuc}
use kinnow_os.Storage.Memory.{Memory}
use kinnow_os.Storage.Text
use kinnow_os.Storage.Text.Scan.{compare_lem}
use kinnow_os.User.{User, id_of, create, find, get_by_name, get_by_id}

-- The index of the first user, from `i` on, whose name begins with the character `c`.
abbrev pub first_initial : Memory → ℕ → List User → ℕ → Option ℕ
first_initial m c [] i = none
first_initial m c (u ∷ us) i = if m u.name == c then some i else first_initial m c us (i + 1)

abbrev pub id_or_error : Option ℕ → ℤ
id_or_error none = negsuc 0
id_or_error (some i) = id_of i

find_lem :
    (fuel : ℕ) (m : Memory) (users : List User) (name i : ℕ)
    → find (suc fuel) m users name i ≡ some (id_or_error (first_initial m (m name) users i))
unfolding find
find_lem fuel m [] name i = refl
find_lem fuel m (u ∷ us) name i =
    let rest = find_lem fuel m us name (i + 1) in
    elim (Bool-cases (m u.name == m name)) [
      | inl same ↦ rw (find, compare_lem m fuel u.name name, same) refl
      | inr apart ↦ rw (find, compare_lem m fuel u.name name, apart) rest
    ]

-- `get_by_name` returns the first user whose name begins with the first character of the name that
-- is asked for, and -1 if there is none.
pub get_by_name_lem :
    (fuel : ℕ) (m : Memory) (users : List User) (name : ℕ)
    → get_by_name (suc fuel) m users name ≡ some (id_or_error (first_initial m (m name) users 0))
unfolding get_by_name
get_by_name_lem fuel m users name = find_lem fuel m users name 0

get_elem?-append :
    (users : List User) (u : User) → get_elem? (users ++ (u ∷ [])) (length users) ≡ some u
get_elem?-append [] u = refl
get_elem?-append (v ∷ vs) u = get_elem?-append vs u

id_of_small : (i : ℕ) → i < 128 → id_of i ≡ pos i
unfolding id_of
id_of_small i lt = let e : (i + 128) % 256 ≡ i + 128 = omega arith in rw e (ground arith)

-- Below 128 users, `get_by_id` of the identifier that `create` returns is the new user, if the fuel
-- lasts for the name.
pub get_by_id-create :
    (fuel : ℕ) (m m' : Memory) (users : List User) (at name flags end : ℕ)
    → length users < 128
    → Text.copy fuel m at name ≡ some (m', end)
    → (r : ℤ × Memory × List User) × (create fuel m users (some at) name flags ≡ some r)
      × (get_by_id r.2 r.0 ≡ some (record { name = at; flags = flags }))
unfolding create get_by_id
get_by_id-create fuel m m' users at name flags end lt copied =
    let u : User = record { name = at; flags = flags } in
    (
      (id_of (length users), m', users ++ (u ∷ [])),
      rw (create, copied) refl,
      rw (id_of_small (length users) lt) (get_elem?-append users u),
    )
