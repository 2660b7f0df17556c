-- ===== src/Fdt/Search/Tree.antt =====
-- kernel/fdt.cxx, get_node over an encoded device tree.
use kinnow_os.Prelude.{
  ℕ, zero, suc, ◌+◌, ◌*◌, ◌%◌, ◌≤◌, ◌<◌, ◌≡◌, ◌≢◌, inl, inr, refl, ap, ◌∙◌, some, List, [], ◌∷◌,
  length, arith,
}
use kinnow_os.Storage.Memory.{Memory}
use kinnow_os.Storage.Text
use kinnow_os.Storage.Text.{IsText}
use kinnow_os.Fdt.Walk.{word_at, begin_node, prop, end, padding, behind_prop}
use kinnow_os.Fdt.Search.{get_node, search}
use kinnow_os.Fdt.Search.Nodes.{
  Nodes, closed, property, node, other, first_named, IsOneName, search_lem, find_first,
}
use kinnow_os.Fdt.Format
use kinnow_os.Fdt.Format.{
  Item, enter, leave, nop, word, encode, size, IsName, AreItems, Holds, steps, first_node,
}
use kinnow_os.Fdt.Format.Reads.{Holds-word}
use kinnow_os.Fdt.Format.Parse.{
  IsProperty, IsNode, parse-property, parse-enter, node-rest, property-rest,
}

module _ (m : Memory) (least : ℕ) where
  -- The nodes `ps` from `off` on are read with more fuel than `least + b`.
  unfoldable pub From : ℕ → ℕ → List ℕ → Type 0
  From b off ps = (n : ℕ) → least + b < n → Nodes m least n off ps

  From-closed : (b off : ℕ) → word_at m off ≡ end → From b off []
  unfolding From
  From-closed b off e zero lt = absurd (omega arith)
  From-closed b off e (suc n) lt = closed n off e

  From-more : (b b' off : ℕ) (ps : List ℕ) → b < b' → From b off ps → From b' off ps
  unfolding From
  From-more b b' off ps le h n lt = h n (omega arith)

  From-property :
      (b off : ℕ) (ps : List ℕ)
      → word_at m off ≡ prop
      → From b (behind_prop m (off + 4)) ps
      → From (suc b) off ps
  unfolding From
  From-property b off ps e h zero lt = absurd (omega arith)
  From-property b off ps e h (suc n) lt = property n off ps e (h n (omega arith))

  From-node :
      (b off k : ℕ) (ps : List ℕ)
      → word_at m off ≡ begin_node
      → IsText m (off + 4) k
      → From b (padding (off + 4 + k)) ps
      → From (k + 1 + b) off ((off + 4) ∷ ps)
  unfolding From
  From-node b off k ps e text h zero lt = absurd (omega arith)
  From-node b off k ps e text h (suc n) lt =
      node n off k ps e text (omega arith) (omega arith) (h n (omega arith))

  From-other :
      (b off w : ℕ) (ps : List ℕ)
      → word_at m off ≡ w
      → w ≢ begin_node
      → w ≢ prop
      → w ≢ end
      → From b (off + 4) ps
      → From (suc b) off ps
  unfolding From
  From-other b off w ps e n1 n2 n3 h zero lt = absurd (omega arith)
  From-other b off w ps e n1 n2 n3 h (suc n) lt =
      other n off ps (λ q. n1 (ground (arith, e, q))) (λ q. n2 (ground (arith, e, q)))
        (λ q. n3 (ground (arith, e, q))) (h n (omega arith))

  -- A word that the search passes over.
  unfoldable pub IsNoToken : ℕ → Type 0
  IsNoToken w = (w ≢ begin_node) × (w ≢ prop) × (w ≢ end)

  -- The words of the header, and what else stands in front of the structure.
  From-header :
      (d b off : ℕ) (ps : List ℕ)
      → ((i : ℕ) → i < d → IsNoToken (word_at m (off + 4 * i)))
      → From b (off + 4 * d) ps
      → From (d + b) off ps
  unfolding IsNoToken
  From-header zero b off ps none_of h =
      let e : off + 4 * 0 ≡ off = omega arith in let z : 0 + b ≡ b = omega arith in rw z (rw e at h)
  From-header (suc d) b off ps none_of h =
      let start : off + 4 * 0 ≡ off = omega arith in
      let place : off + 4 + 4 * d ≡ off + 4 * suc d = omega arith in
      let (n1, n2, n3) = rw start at (none_of 0 (omega arith)) in
      let step = λ (i : ℕ). let e : off + 4 * suc i ≡ off + 4 + 4 * i = omega arith in e in
      let count : suc d + b ≡ suc (d + b) = omega arith in
      rw count (
        From-other (d + b) off (word_at m off) ps refl n1 n2 n3 (
          From-header d b (off + 4) ps (λ i lt. rw (step i) at (none_of (suc i) (omega arith)))
            (rw place h)))

  module _ (text k : ℕ) where
    Reads : ℕ → List Item → Type 0
    Reads a xs =
        (ps : List ℕ) × From (steps xs) a ps × (first_named m text k ps ≡ first_node m text k a xs)

    Reads-enter :
        (a : ℕ) (al : a % 4 ≡ 0) (name : List ℕ) (xs : List Item)
        → IsNode m a al name xs
        → Reads (a + size (enter name)) xs
        → Reads a (enter name ∷ xs)
    unfolding Reads IsNode steps first_node
    Reads-enter a al name xs (token, text', inl behind, h) (ps, from, same) = (
      (a + 4) ∷ ps,
      From-more (length name + 1 + steps xs) (length name + 2 + steps xs) a ((a + 4) ∷ ps)
          (omega arith) (From-node (steps xs) a (length name) ps token text' (rw behind from)),
      rw same refl,
    )
    Reads-enter a al name xs (token, text', inr (behind, blank), h) (ps, from, same) =
        let p = padding (a + 4 + length name) in
        let place : length name + 1 + suc (steps xs) ≡ length name + 2 + steps xs = omega arith in
        (
          (a + 4) ∷ ps,
          rw place at (
              From-node (suc (steps xs)) a (length name) ps token text' (
                From-other (steps xs) p 0 ps blank (λ q. omega (arith, q)) (λ q. omega (arith, q))
                  (λ q. omega (arith, q)) (rw behind from))),
          rw same refl,
        )

    Reads-all :
        (a : ℕ) (xs : List Item) → a % 4 ≡ 0 → AreItems xs → Holds m a (encode xs) → Reads a xs
    unfolding Reads AreItems encode steps first_node size IsProperty
    Reads-all a [] al items h =
        let (token, rest) = Holds-word m a 9 [] (omega arith) h in ([], From-closed 0 a token, refl)
    Reads-all a (enter name ∷ xs) al (clean, items) h =
        let it = parse-enter m a al name xs clean h in
        Reads-enter a al name xs it
          (Reads-all (a + size (enter name)) xs (omega arith) items (node-rest m a al name xs it))
    Reads-all a (Format.property name bytes ∷ xs) al (small, short, items) h =
        let it = parse-property m a al name bytes xs small short h in
        let (ps, from, same) =
          Reads-all (a + size (Format.property name bytes)) xs (omega arith) items
            (property-rest m a al name bytes xs it) in
        (ps, From-property (steps xs) a ps it.0 (rw it.2 from), same)
    Reads-all a (leave ∷ xs) al items h =
        let (token, rest) = Holds-word m a 2 _ (omega arith) h in
        let (ps, from, same) = Reads-all (a + 4) xs (omega arith) items rest in
        (
          ps,
          From-other (steps xs) a 2 ps token (λ q. omega (arith, q)) (λ q. omega (arith, q))
              (λ q. omega (arith, q)) from,
          same,
        )
    Reads-all a (nop ∷ xs) al items h =
        let (token, rest) = Holds-word m a 4 _ (omega arith) h in
        let (ps, from, same) = Reads-all (a + 4) xs (omega arith) items rest in
        (
          ps,
          From-other (steps xs) a 4 ps token (λ q. omega (arith, q)) (λ q. omega (arith, q))
              (λ q. omega (arith, q)) from,
          same,
        )

  -- A header of `d` words that are no tokens, and a structure with its end behind them.
  pub record IsTree (hdr d : ℕ) (xs : List Item) : Type 0 where
    pub header : (i : ℕ) → i < d → IsNoToken (word_at m (hdr + 4 * i))
    pub aligned : hdr % 4 ≡ 0
    pub items : AreItems xs
    pub structure : Holds m (hdr + 4 * d) (encode xs)

  pub tree-From :
      (text k hdr d : ℕ) (xs : List Item)
      → IsTree hdr d xs
      → (ps : List ℕ) × From (d + steps xs) hdr ps
        × (first_named m text k ps ≡ first_node m text k (hdr + 4 * d) xs)
  unfolding Reads
  tree-From text k hdr d xs tree =
      let (ps, from, same) =
        Reads-all text k (hdr + 4 * d) xs (omega (arith, tree.aligned)) tree.items tree.structure in
      (ps, From-header d (steps xs) hdr ps tree.header from, same)

pub search-tree :
    (m : Memory) (least n hdr d key q tmpbuf k : ℕ) (xs : List Item)
    → IsOneName m key q tmpbuf k
    → q ≤ least
    → k ≤ least
    → IsTree m least hdr d xs
    → least + (d + steps xs) < n
    → search n m hdr key tmpbuf ≡ some (first_node m tmpbuf k (hdr + 4 * d) xs)
unfolding From
search-tree m least n hdr d key q tmpbuf k xs name hq hk tree fuel =
    let (ps, from, same) = tree-From m least tmpbuf k hdr d xs tree in
    search_lem m key q tmpbuf k least n hdr ps hq hk name (from n fuel) ∙ ap some same

-- For a path of one name, without another slash and an at sign, with storage for its copy; over a
-- tree whose words from the header to the structure are no tokens; and with fuel for these words,
-- the structure and the name: `get_node` returns the name of the first node whose first bytes have
-- the same sum, in 32 bits, as the name, and `nullptr` exactly if there is none. All but the slash is
-- read after the copy.
pub get_node-encode :
    (m m' : Memory) (n hdr d key tmpbuf k s : ℕ) (xs : List Item)
    → m key ≡ b'/'
    → Text.copy (suc n) m tmpbuf (key + 1) ≡ some (m', s)
    → IsOneName m' (key + 1) k tmpbuf k
    → IsTree m' k hdr d xs
    → k + (d + steps xs) < suc n
    → get_node (suc n) m hdr key (some tmpbuf) ≡ some (first_node m' tmpbuf k (hdr + 4 * d) xs)
unfolding get_node
get_node-encode m m' n hdr d key tmpbuf k s xs slash copied name tree fuel =
    rw (get_node, find_first n m key slash, copied)
      (search-tree m' k (suc n) hdr d (key + 1) k tmpbuf k xs name (omega arith) (omega arith) tree
        fuel)
