-- ===== src/Fdt/Walk/Property.antt =====
-- kernel/fdt.cxx, get_prop: which property it finds.
use kinnow_os.Prelude.{
  ℕ, suc, ◌+◌, ◌<◌, ◌≡◌, ◌≢◌, ◌⊎◌, Option, none, some, List, [], ◌∷◌, arith, ◌==◌, if◌then◌else◌,
  inl, inr,
}
use kinnow_os.Storage.Memory.{Memory}
use kinnow_os.Storage.Text.{IsText}
use kinnow_os.Storage.Text.Scan.{length_lem, compare_lem}
use kinnow_os.Fdt.Walk.{
  word_at, begin_node, end_node, prop, end, padding, key_of, behind_prop, get_prop,
}

-- From `off` on stand the properties at the addresses `ps`, up to the next end of a node or of the
-- tree; `n` bounds the tokens and the characters of names of nodes in between.
pub data Properties (m : Memory) : ℕ → ℕ → List ℕ → Type 0 where
  closed :
      (n off : ℕ) → (word_at m off ≡ end_node) ⊎ (word_at m off ≡ end) → Properties m (suc n) off []
  property :
      (n off : ℕ) (ps : List ℕ)
      → word_at m off ≡ prop
      → Properties m (suc n) (behind_prop m (off + 4)) ps
      → Properties m (suc (suc n)) off ((off + 4) ∷ ps)
  node :
      (n off k : ℕ) (ps : List ℕ)
      → word_at m off ≡ begin_node
      → IsText m (off + 4) k
      → k < n
      → Properties m n (padding (off + 4 + k)) ps
      → Properties m (suc n) off ps
  other :
      (n off : ℕ) (ps : List ℕ)
      → word_at m off ≢ begin_node
      → word_at m off ≢ end_node
      → word_at m off ≢ prop
      → word_at m off ≢ end
      → Properties m n (off + 4) ps
      → Properties m (suc n) off ps

-- The first property whose name begins with the character `c`.
abbrev pub first_initial : Memory → ℕ → ℕ → List ℕ → Option ℕ
first_initial m hdr c [] = none
first_initial m hdr c (p ∷ ps) =
    if m (key_of m hdr p) == c then some p else first_initial m hdr c ps

-- With fuel for the tokens, `get_prop` returns the first property of a node, or of the first node in
-- it, whose name begins with the first character of the key, and `nullptr` exactly if there is none.
pub get_prop_lem :
    (m : Memory) (hdr key n off : ℕ) (ps : List ℕ)
    → Properties m n off ps
    → get_prop n m hdr off key ≡ some (first_initial m hdr (m key) ps)
unfolding get_prop
get_prop_lem m hdr key n off ps (closed n' off' (inl e)) = ground (arith, e)
get_prop_lem m hdr key n off ps (closed n' off' (inr e)) = ground (arith, e)
get_prop_lem m hdr key n off ps (property n' off' ps' e more) =
    let rest = get_prop_lem m hdr key (suc n') (behind_prop m (off' + 4)) ps' more in
    ground (arith, e, compare_lem m n' (key_of m hdr (off' + 4)) key, rest)
get_prop_lem m hdr key n off ps (node n' off' k ps' e text small more) =
    let rest = get_prop_lem m hdr key n' (padding (off' + 4 + k)) ps' more in
    ground (arith, e, length_lem m n' (off' + 4) k text small, rest)
get_prop_lem m hdr key n off ps (other n' off' ps' e1 e2 e3 e4 more) =
    let rest = get_prop_lem m hdr key n' (off' + 4) ps' more in ground (arith, e1, e2, e3, e4, rest)
