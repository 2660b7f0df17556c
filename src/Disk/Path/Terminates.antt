-- ===== src/Disk/Path/Terminates.antt =====
-- kernel/vdisk.cxx, resolve_path_relative: the loop over the segments ends, as each takes at least
-- one character of the path.
use kinnow_os.Prelude.{
  ℕ, zero, suc, ◌<◌, ◌≤◌, ◌≡◌, ◌≢◌, ◌⊎◌, refl, some, List, [], ◌∷◌, arith, length, Option-cases,
  inl, inr,
}
use kinnow_os.Disk.Nodes.{Disk}
use kinnow_os.Disk.Path.{
  out_of_fuel, Match, same, other, retargeted, segment, behind, match_child, find_file,
  letter_child, follow_letters, behind_letters, resolve_path_relative, resolve_path,
}

length-behind : (path : List ℕ) → length (behind path) ≤ length path
unfolding behind
length-behind [] = omega arith
length-behind (c ∷ cs) = ground (arith, length-behind cs)

length-behind_suc : (c : ℕ) (cs : List ℕ) → length (behind (c ∷ cs)) ≤ length cs
unfolding behind
length-behind_suc c cs = ground (arith, length-behind cs)

pub Match-cases : (m : Match) → (m ≡ other) ⊎ ((m ≡ retargeted) ⊎ ((j : ℕ) × (m ≡ same j)))
Match-cases other = inl refl
Match-cases retargeted = inr (inl refl)
Match-cases (same j) = inr (inr (j, refl))

module _ {Device : Type 0} where
  find_file-ends :
      (fuel : ℕ) (s : Disk Device) (i : ℕ) (path : List ℕ)
      → length path < fuel
      → find_file fuel s i path ≢ out_of_fuel
  unfolding find_file
  find_file-ends zero s i path h = absurd (omega arith)
  find_file-ends (suc fuel) s i [] h = λ e. cc
  find_file-ends (suc fuel) s i (c ∷ cs) h =
      elim (Match-cases (match_child s (segment (c ∷ cs)) (s.node i).children)) [
        | inl m ↦ rw (find_file, m) (λ e. cc)
        | inr (inl m) ↦ rw (find_file, m) (λ e. cc)
        | inr (inr (j, m)) ↦
            rw (find_file, m)
              (find_file-ends fuel s j (behind (c ∷ cs)) (omega (arith, length-behind_suc c cs)))
      ]

  length-follow_letters :
      (s : Disk Device) (i : ℕ) (path : List ℕ) (j : ℕ) (rest : List ℕ)
      → follow_letters s i path ≡ some (j, rest)
      → length rest ≤ length path
  unfolding follow_letters
  length-follow_letters s i [] j rest e = let at : [] ≡ rest = cc in ground (arith, at)
  length-follow_letters s i (c ∷ cs) j rest e = elim (Option-cases (letter_child s i c)) [
    | inl o ↦ ground (arith, o, e)
    | inr (k, o) ↦ ground (arith, o, e, length-follow_letters s k cs j rest)
  ]

  behind_letters-ends :
      (fuel : ℕ) (s : Disk Device) (i : ℕ) (path : List ℕ)
      → length path < fuel
      → behind_letters fuel s i path ≢ out_of_fuel
  unfolding behind_letters
  behind_letters-ends fuel s i [] h = λ e. cc
  behind_letters-ends fuel s i (c ∷ []) h = λ e. cc
  behind_letters-ends fuel s i (c ∷ d ∷ cs) h = ground (arith, find_file-ends fuel s i cs)

  -- With more fuel than the path has characters, the resolution of a path comes to a node, to
  -- `nullptr` or to the panic: it never runs out.
  pub resolve_path-ends :
      (fuel : ℕ) (s : Disk Device) (path : List ℕ)
      → length path < fuel
      → resolve_path fuel s path ≢ out_of_fuel
  unfolding resolve_path resolve_path_relative
  resolve_path-ends fuel s [] h = λ e. cc
  resolve_path-ends fuel s (c ∷ cs) h = elim (Option-cases (follow_letters s 0 (c ∷ cs))) [
    | inl o ↦ ground (arith, o, find_file-ends fuel s 0 cs)
    | inr (x, o) ↦
        let shorter = length-follow_letters s 0 (c ∷ cs) x.0 x.1 o in
        ground (arith, o, find_file-ends fuel s 0 cs, behind_letters-ends fuel s x.0 x.1, shorter)
  ]
