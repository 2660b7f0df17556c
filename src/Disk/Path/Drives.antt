-- ===== src/Disk/Path/Drives.antt =====
-- kernel/vdisk.cxx, get_drive: the number that a letter of a path stands for.
use kinnow_os.Prelude.{
  ℕ, zero, suc, ◌<◌, ◌≤◌, ◌≡◌, refl, Bool, true, false, not, ◌||◌, none, some, List, [], ◌∷◌, arith,
  ltb, length, get_elem?, Option-cases, inl, inr,
}
use kinnow_os.Prelude.Table.{holds_from, holds_from_lem}
use kinnow_os.Disk.Nodes.{Disk}
use kinnow_os.Disk.Path.{
  missing, is_separator, is_letter, get_drive, letter_child, follow_letters, resolve_path_relative,
}

abbrev is_past : ℕ → Bool
is_past c =
    not (is_letter c) || (elim (get_drive c) [ none ↦ false | some letter ↦ ltb 128 letter ])

drive_table : holds_from is_past 0 123 ≡ true
unfolding holds_from get_drive
drive_table = refl

drive_past : (c letter : ℕ) → is_letter c ≡ true → get_drive c ≡ some letter → 128 < letter
drive_past c letter on at =
    let row = holds_from_lem is_past 0 123 drive_table {k = c} (omega arith) (ground arith) in
    ground (arith, row, at)

get_elem?-past : (xs : List ℕ) (i : ℕ) → length xs ≤ i → get_elem? xs i ≡ none
get_elem?-past [] i h = refl
get_elem?-past (x ∷ xs) zero h = absurd (omega arith)
get_elem?-past (x ∷ xs) (suc i) h = get_elem?-past xs i (omega arith)

module _ {Device : Type 0} where
  -- A path that begins with a letter is not found below a node of at most 129 children: no letter
  -- stands for the place of one of them.
  pub resolve_path_relative-letter :
      (fuel : ℕ) (s : Disk Device) (i c : ℕ) (cs : List ℕ)
      → is_letter c ≡ true
      → length (s.node i).children ≤ 129
      → resolve_path_relative fuel s i (c ∷ cs) ≡ missing
  unfolding resolve_path_relative follow_letters letter_child
  resolve_path_relative-letter fuel s i c cs on few =
      let apart : is_separator c ≡ false = ground arith in
      elim (Option-cases (get_drive c)) [
        | inl e ↦ ground (arith, on, apart, e)
        | inr (letter, e) ↦
            let gone =
              get_elem?-past (s.node i).children letter (omega (arith, drive_past c letter on e)) in
            ground (arith, on, apart, e, gone)
      ]
