-- ===== src/Disk/Path/Reaches.antt =====
-- kernel/vdisk.cxx, resolve_path_relative: what it means that a name fits a segment, and that a
-- node is found.
use kinnow_os.Prelude.{
  ℕ, zero, suc, ◌+◌, ◌≡◌, ◌↔◌, ap, subst, true, some, List, [], ◌∷◌, arith, length, get_elem?,
  Bool-cases, inl, inr,
}
use kinnow_os.Prelude.Int.{ℤ, pos, negsuc, is_zero, ◌+ℤ◌, sub_ℕ, pos_part, neg_part, +ℤ_parts}
use kinnow_os.Disk.Nodes.{Disk, text_of}
use kinnow_os.Disk.Path.{
  found, same, compare_bytes, is_named, requests_node, segment, behind, match_child, find_file,
}
use kinnow_os.Disk.Path.Terminates.{Match-cases}

-- The sum of the characters.
abbrev pub sum : List ℕ → ℕ
sum [] = 0
sum (x ∷ xs) = x + sum xs

sub_parts : (x y : ℕ) → pos_part (sub_ℕ x y) + y ≡ neg_part (sub_ℕ x y) + x
sub_parts x y = ground arith

compare_bytes-sum :
    (xs ys : List ℕ) (diff : ℤ)
    → length xs ≡ length ys
    → pos_part (compare_bytes xs ys diff) + neg_part diff + sum ys
      ≡ neg_part (compare_bytes xs ys diff) + pos_part diff + sum xs
unfolding compare_bytes
compare_bytes-sum [] [] diff e = omega arith
compare_bytes-sum [] (y ∷ ys) diff e = absurd (omega arith)
compare_bytes-sum (x ∷ xs) [] diff e = absurd (omega arith)
compare_bytes-sum (x ∷ xs) (y ∷ ys) diff e = omega (
  arith,
  compare_bytes-sum xs ys (diff +ℤ sub_ℕ x y) (omega arith),
  +ℤ_parts diff (sub_ℕ x y),
  sub_parts x y,
)

is_zero_iff : (z : ℤ) → (is_zero z ≡ true) ↔ (pos_part z ≡ neg_part z)
is_zero_iff (pos zero) = ground arith
is_zero_iff (pos (suc n)) = ground arith
is_zero_iff (negsuc n) = ground arith

-- A segment of a path fits the name of a node exactly if the two have equally many characters with
-- equal sums: the order of the characters does not count.
pub is_named_iff :
    (seg name : List ℕ)
    → (is_named seg name ≡ true) ↔ ((length seg ≡ length name) × (sum seg ≡ sum name))
unfolding is_named
is_named_iff seg name =
    ground (arith, compare_bytes-sum seg name (pos 0), is_zero_iff (compare_bytes seg name (pos 0)))

module _ {Device : Type 0} where
  -- From the node `i` the path leads to `k`: the first segment fits the name of a child of `i`, from
  -- which the rest of the path leads to `k`.
  pub data Reaches (s : Disk Device) : ℕ → List ℕ → ℕ → Type 0 where
    stop : (i : ℕ) → Reaches s i [] i
    down :
        (i j k place c : ℕ) (cs : List ℕ)
        → get_elem? (s.node i).children place ≡ some j
        → length (segment (c ∷ cs)) ≡ length (text_of (s.node j).name)
        → sum (segment (c ∷ cs)) ≡ sum (text_of (s.node j).name)
        → Reaches s j (behind (c ∷ cs)) k
        → Reaches s i (c ∷ cs) k

  match_child-same :
      (s : Disk Device) (seg children : List ℕ) (j : ℕ)
      → match_child s seg children ≡ same j
      → ((place : ℕ) × (get_elem? children place ≡ some j))
        × (is_named seg (text_of (s.node j).name) ≡ true)
  unfolding match_child
  match_child-same s seg [] j e = absurd cc
  match_child-same s seg (i ∷ is) j e = elim (Bool-cases (requests_node (s.node i))) [
    | inl r ↦ absurd (ground (arith, r, e))
    | inr r ↦ elim (Bool-cases (is_named seg (text_of (s.node i).name))) [
      | inl here_named ↦
          let at : i ≡ j = ground (arith, r, here_named, e) in
          (
            (0, ap some at),
            subst (λ m. is_named seg (text_of (s.node m).name) ≡ true) at here_named,
          )
      | inr apart ↦
          let ((place, at), fits) = match_child-same s seg is j (ground (arith, r, apart, e)) in
          ((suc place, at), fits)
    ]
  ]

  -- A path behind its first separator that is resolved to a node leads to that node, child by
  -- child.
  pub find_file-Reaches :
      (fuel : ℕ) (s : Disk Device) (i : ℕ) (path : List ℕ) (k : ℕ)
      → find_file fuel s i path ≡ found k
      → Reaches s i path k
  unfolding find_file
  find_file-Reaches zero s i path k e = absurd cc
  find_file-Reaches (suc fuel) s i [] k e =
      let at : i ≡ k = cc in subst (λ m. Reaches s i [] m) at (stop i)
  find_file-Reaches (suc fuel) s i (c ∷ cs) k e =
      elim (Match-cases (match_child s (segment (c ∷ cs)) (s.node i).children)) [
        | inl m ↦ absurd (ground (arith, m, e))
        | inr (inl m) ↦ absurd (ground (arith, m, e))
        | inr (inr (j, m)) ↦
            let ((place, at), fits) =
              match_child-same s (segment (c ∷ cs)) (s.node i).children j m in
            let (equal_length, equal_sum) =
              (is_named_iff (segment (c ∷ cs)) (text_of (s.node j).name)).0 fits in
            down i j k place c cs at equal_length equal_sum
              (find_file-Reaches fuel s j (behind (c ∷ cs)) k (ground (arith, m, e)))
      ]
