-- ===== src/Libio/Environ.antt =====
-- sys/libio/stdlib.cxx: the environment, a list of the texts of its variables, each the list of its
-- characters without the end byte. What `snprintf` writes is the name, an equals sign and the value.
pub mod Lookup
use kinnow_os.Prelude.{
  ℕ, zero, suc, ◌+◌, Bool, true, false, not, ◌||◌, Option, none, some, List, [], ◌∷◌, ◌++◌, ◌==◌,
  if◌then◌else◌, length, drop,
}
use kinnow_os.Prelude.Int.{ℤ, pos, negsuc, ◌+ℤ◌, sub_ℕ, is_zero}

-- `strncmp` of two texts.
pub compare_prefix : List ℕ → List ℕ → ℕ → ℤ → ℤ
compare_prefix xs ys zero diff = diff
compare_prefix [] [] (suc n) diff = diff
compare_prefix [] (y ∷ ys) (suc n) diff = negsuc 0
compare_prefix (x ∷ xs) [] (suc n) diff = negsuc 0
compare_prefix (x ∷ xs) (y ∷ ys) (suc n) diff = compare_prefix xs ys n (diff +ℤ sub_ℕ x y)

-- The index of the first equals sign (`strchr`).
abbrev pub equals_place : List ℕ → Option ℕ
equals_place [] = none
equals_place (c ∷ cs) =
    if c == b'=' then some 0 else elim (equals_place cs) [ none ↦ none | some i ↦ some (suc i) ]

abbrev pub has_equals : List ℕ → Bool
has_equals [] = false
has_equals (c ∷ cs) = c == b'=' || has_equals cs

-- The test that `setenv`, `getenv` and `unsetenv` make first, for a name that is no null pointer.
abbrev pub is_refused : List ℕ → Bool
is_refused name = length name == 0 || has_equals name

-- The value of a variable, if it is that of the name.
pub value_if : List ℕ → List ℕ → Option (List ℕ)
unfolding compare_prefix
value_if name entry = elim (equals_place entry) [
  | none ↦ none
  | some p ↦
      if is_zero (compare_prefix name entry p (pos 0)) then some (drop (suc p) entry) else none
]

-- The loop of `getenv`.
pub find_value : List ℕ → List (List ℕ) → Option (List ℕ)
unfolding value_if
find_value name [] = none
find_value name (e ∷ es) = elim (value_if name e) [ none ↦ find_value name es | some v ↦ some v ]

-- `none` for NULL; an environment of its own is no null pointer here.
unfoldable pub getenv : List ℕ → List (List ℕ) → Option (List ℕ)
unfolding find_value
getenv name environ = if is_refused name then none else find_value name environ

-- The environment is as it was, with the code returned; the environment is a null pointer; the
-- assertion fails; or the environment has a new variable.
pub data Assigned : Type 0 where
  returned : ℤ → Assigned
  lost : Assigned
  failed_assertion : Assigned
  assigned : List (List ℕ) → Assigned

abbrev pub einval : ℤ
einval = negsuc 37

-- `grown` and `given` say whether storage is given for the list and for the variable. The code stores
-- what `realloc` returns before it tests it.
unfoldable pub setenv : Bool → Bool → List ℕ → List ℕ → Bool → List (List ℕ) → Assigned
unfolding find_value
setenv grown given name value overwrite environ =
    let add =
      if not grown
      then lost
      else if not given
      then returned einval
      else assigned (environ ++ ((name ++ (b'=' ∷ value)) ∷ [])) in
    let absent = if overwrite then add else failed_assertion in
    if is_refused name then returned einval else elim (find_value name environ) [
      | none ↦ absent
      | some v ↦ if overwrite then add else returned (pos 0)
    ]
