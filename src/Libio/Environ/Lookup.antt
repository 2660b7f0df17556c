-- ===== src/Libio/Environ/Lookup.antt =====
-- sys/libio/stdlib.cxx: `getenv` behind `setenv`.
use kinnow_os.Prelude.{
  ℕ, suc, ◌≡◌, refl, ap, ◌∙◌, true, false, Option, none, some, List, [], ◌∷◌, ◌++◌, arith, length,
  drop, Option-cases, inl, inr,
}
use kinnow_os.Prelude.Int.{ℤ, pos, ◌+ℤ◌, sub_ℕ, int_laws, pos_part, neg_part}
use kinnow_os.Libio.Environ.{
  compare_prefix, equals_place, has_equals, is_refused, value_if, find_value, getenv, assigned,
  setenv,
}

add_same : (d : ℤ) (x : ℕ) → d +ℤ sub_ℕ x x ≡ d
add_same d x =
    let same : (pos_part (sub_ℕ x x) ≡ 0) × (neg_part (sub_ℕ x x) ≡ 0) = ground arith in
    omega (int_laws, same)

compare_prefix_same :
    (name rest : List ℕ) (diff : ℤ) → compare_prefix name (name ++ rest) (length name) diff ≡ diff
unfolding compare_prefix
compare_prefix_same [] rest diff = refl
compare_prefix_same (x ∷ xs) rest diff =
    compare_prefix_same xs rest (diff +ℤ sub_ℕ x x) ∙ add_same diff x

equals_place-append :
    (name value : List ℕ)
    → has_equals name ≡ false
    → equals_place (name ++ (b'=' ∷ value)) ≡ some (length name)
equals_place-append [] value h = refl
equals_place-append (c ∷ cs) value h = ground (arith, h, equals_place-append cs value)

drop-append : (name value : List ℕ) (c : ℕ) → drop (suc (length name)) (name ++ (c ∷ value)) ≡ value
drop-append [] value c = refl
drop-append (x ∷ xs) value c = drop-append xs value c

value_if_same :
    (name value : List ℕ)
    → has_equals name ≡ false
    → value_if name (name ++ (b'=' ∷ value)) ≡ some value
unfolding value_if
value_if_same name value h =
    rw (value_if, equals_place-append name value h, compare_prefix_same name (b'=' ∷ value) (pos 0))
      (ap some (drop-append name value b'='))

-- The first of two results that is there.
abbrev pub or_else : Option (List ℕ) → List ℕ → List ℕ
or_else none v = v
or_else (some w) v = w

find_value-append :
    (name entry value : List ℕ) (es : List (List ℕ))
    → value_if name entry ≡ some value
    → find_value name (es ++ (entry ∷ [])) ≡ some (or_else (find_value name es) value)
unfolding find_value
find_value-append name entry value [] h = rw (find_value, h) refl
find_value-append name entry value (e ∷ es) h = elim (Option-cases (value_if name e)) [
  | inl gone ↦ rw (find_value, gone) (find_value-append name entry value es h)
  | inr (w, there) ↦ rw (find_value, there) refl
]

-- Where `setenv` with overwriting adds a variable, `getenv` of its name returns the new value only if
-- it found none before, and else goes on to return the value it found.
pub getenv-setenv :
    (name value : List ℕ) (environ : List (List ℕ))
    → is_refused name ≡ false
    → (environ' : List (List ℕ)) × (setenv true true name value true environ ≡ assigned environ')
      × (getenv name environ' ≡ some (or_else (getenv name environ) value))
unfolding getenv setenv
getenv-setenv name value environ fine =
    let entry = name ++ (b'=' ∷ value) in
    let found =
      find_value-append name entry value environ
        (value_if_same name value (ground (arith, fine))) in
    let added : setenv true true name value true environ ≡ assigned (environ ++ (entry ∷ [])) =
      elim (Option-cases (find_value name environ)) [
        | inl e ↦ rw (setenv, fine, e) refl
        | inr (w, e) ↦ rw (setenv, fine, e) refl
      ] in
    (environ ++ (entry ∷ []), added, rw fine found)
