-- ===== src/Fdt/Search/Nodes.antt =====
-- kernel/fdt.cxx, get_node: which node it finds for a path of one name.
use kinnow_os.Prelude.{
  arith, ◌==◌, ◌%◌, ◌^◌, ◌≤◌, ℕ, suc, ◌+◌, ◌<◌, ◌≡◌, ◌≢◌, refl, Option, none, some, List, [], ◌∷◌,
  ==_ne, if◌then◌else◌, Bool-cases, inl, inr,
}
use kinnow_os.Prelude.Int.{is_zero}
use kinnow_os.Storage.Memory
use kinnow_os.Storage.Memory.{Memory}
use kinnow_os.Storage.Memory.Compare.{total, compare_iff}
use kinnow_os.Storage.Text
use kinnow_os.Storage.Text.{IsText}
use kinnow_os.Storage.Text.Scan.{length_lem, find_char-absent}
use kinnow_os.Fdt.Walk.{word_at, begin_node, prop, end, padding, behind_prop}
use kinnow_os.Fdt.Search.{cut, next_name, is_named, search}

-- From `off` on stand the nodes with their names at `ps`, up to the next end of the tree; `n` bounds
-- the tokens and the characters of the names, and `least` at every node.
pub data Nodes (m : Memory) (least : ℕ) : ℕ → ℕ → List ℕ → Type 0 where
  closed : (n off : ℕ) → word_at m off ≡ end → Nodes m least (suc n) off []
  property :
      (n off : ℕ) (ps : List ℕ)
      → word_at m off ≡ prop
      → Nodes m least n (behind_prop m (off + 4)) ps
      → Nodes m least (suc n) off ps
  node :
      (n off k : ℕ) (ps : List ℕ)
      → word_at m off ≡ begin_node
      → IsText m (off + 4) k
      → k < n
      → least < n
      → Nodes m least n (padding (off + 4 + k)) ps
      → Nodes m least (suc n) off ((off + 4) ∷ ps)
  other :
      (n off : ℕ) (ps : List ℕ)
      → word_at m off ≢ begin_node
      → word_at m off ≢ prop
      → word_at m off ≢ end
      → Nodes m least n (off + 4) ps
      → Nodes m least (suc n) off ps

-- The first of the names whose first `k` bytes have the same sum, in 32 bits, as those at `name`.
abbrev pub first_named : Memory → ℕ → ℕ → List ℕ → Option ℕ
first_named m name k [] = none
first_named m name k (p ∷ ps) =
    if total m p k % 2 ^ 32 == total m name k % 2 ^ 32 then some p else first_named m name k ps

module _ (m : Memory) (key q tmpbuf k : ℕ) where
  -- One name of `k` characters in `tmpbuf`, and a key of `q` characters without a slash.
  pub record IsOneName : Type 0 where
    pub key_text : IsText m key q
    pub name_text : IsText m tmpbuf k
    pub no_slash : (i : ℕ) → i < q → m (key + i) ≢ b'/'
    pub name_no_slash : (i : ℕ) → i < k → m (tmpbuf + i) ≢ b'/'
    pub name_no_at : (i : ℕ) → i < k → m (tmpbuf + i) ≢ b'@'

  next_name-none : (fuel : ℕ) → IsOneName → q < fuel → next_name fuel m tmpbuf key ≡ some none
  unfolding next_name
  next_name-none fuel h enough =
      rw (next_name, find_char-absent m fuel key q b'/' h.key_text enough h.no_slash) refl

  pub cut-none :
      (fuel c : ℕ)
      → IsText m tmpbuf k
      → k < fuel
      → ((i : ℕ) → i < k → m (tmpbuf + i) ≢ c)
      → cut fuel m tmpbuf c ≡ some m
  unfolding cut
  cut-none fuel c t enough absent =
      rw (cut, find_char-absent m fuel tmpbuf k c t enough absent) refl

  is_named_lem :
      (fuel p : ℕ)
      → IsOneName
      → k < fuel
      → is_named fuel m tmpbuf p ≡ some (m, is_zero (Memory.compare m p tmpbuf k))
  unfolding is_named
  is_named_lem fuel p h enough =
      rw
        (
          is_named,
          cut-none fuel b'@' h.name_text enough h.name_no_at,
          cut-none fuel b'/' h.name_text enough h.name_no_slash,
          length_lem m fuel tmpbuf k h.name_text enough,
        )
        refl

  -- The test of a name, by the sums of the bytes.
  compare-total :
      (p : ℕ)
      → is_zero (Memory.compare m p tmpbuf k) ≡ (total m p k % 2 ^ 32 == total m tmpbuf k % 2 ^ 32)
  compare-total p = ground (arith, compare_iff m p tmpbuf k)

  pub search_lem :
      (least n off : ℕ) (ps : List ℕ)
      → q ≤ least
      → k ≤ least
      → IsOneName
      → Nodes m least n off ps
      → search n m off key tmpbuf ≡ some (first_named m tmpbuf k ps)
  unfolding search
  search_lem least n off ps hq hk h (closed n' off' e) = rw e refl
  search_lem least n off ps hq hk h (property n' off' ps' e more) =
      rw e (search_lem least n' (behind_prop m (off' + 4)) ps' hq hk h more)
  search_lem least n off ps hq hk h (node n' off' j ps' e text small enough more) =
      let rest = search_lem least n' (padding (off' + 4 + j)) ps' hq hk h more in
      let test = is_named_lem n' (off' + 4) h (omega arith) in
      let sums = compare-total (off' + 4) in
      elim (Bool-cases (total m (off' + 4) k % 2 ^ 32 == total m tmpbuf k % 2 ^ 32)) [
        | inl same ↦ rw (e, test, sums, same, next_name-none n' h (omega arith)) refl
        | inr apart ↦ rw (e, test, sums, apart, length_lem m n' (off' + 4) j text small) rest
      ]
  search_lem least n off ps hq hk h (other n' off' ps' e1 e2 e3 more) =
      rw (==_ne _ _ e1, ==_ne _ _ e2, ==_ne _ _ e3)
        (search_lem least n' (off' + 4) ps' hq hk h more)

pub find_first :
    (fuel : ℕ) (m : Memory) (s : ℕ)
    → m s ≡ b'/'
    → Text.find_char (suc fuel) m s b'/' ≡ some (some s)
unfolding Text.find_char Text.scan
find_first fuel m s e = rw e refl
