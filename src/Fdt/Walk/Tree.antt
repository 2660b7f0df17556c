-- ===== src/Fdt/Walk/Tree.antt =====
-- kernel/fdt.cxx, get_prop over an encoded device tree.
use kinnow_os.Prelude.{
  ℕ, zero, suc, ◌+◌, ◌%◌, ◌^◌, ◌<◌, ◌≡◌, ◌≢◌, ◌⊎◌, inl, inr, refl, ap, ◌∙◌, some, List, [], ◌∷◌,
  ◌++◌, length, arith,
}
use kinnow_os.Storage.Memory.{Memory}
use kinnow_os.Storage.Text.{IsText}
use kinnow_os.Fdt.Walk.{
  word_at, begin_node, end_node, prop, end, padding, key_of, behind_prop, get_prop,
}
use kinnow_os.Fdt.Walk.Property.{
  Properties, closed, property, node, other, first_initial, get_prop_lem,
}
use kinnow_os.Fdt.Format
use kinnow_os.Fdt.Format.{
  Item, enter, leave, nop, word, encode, size, IsName, AreItems, Holds, steps, first_property,
}
use kinnow_os.Fdt.Format.Reads.{Holds-word, Holds-behind}
use kinnow_os.Fdt.Format.Parse.{
  IsProperty, IsNode, parse-property, parse-enter, node-rest, property-rest,
}

module _ (m : Memory) where
  -- The properties `ps` from `off` on are read with more fuel than `b`.
  From : ℕ → ℕ → List ℕ → Type 0
  From b off ps = (n : ℕ) → b < n → Properties m n off ps

  From-closed : (off : ℕ) → (word_at m off ≡ end_node) ⊎ (word_at m off ≡ end) → From 0 off []
  unfolding From
  From-closed off e zero lt = absurd (omega arith)
  From-closed off e (suc n) lt = closed n off e

  From-more : (b b' off : ℕ) (ps : List ℕ) → b < b' → From b off ps → From b' off ps
  unfolding From
  From-more b b' off ps le h n lt = h n (omega arith)

  From-property :
      (b off : ℕ) (ps : List ℕ)
      → word_at m off ≡ prop
      → From b (behind_prop m (off + 4)) ps
      → From (suc b) off ((off + 4) ∷ ps)
  unfolding From
  From-property b off ps e h zero lt = absurd (omega arith)
  From-property b off ps e h (suc zero) lt = absurd (omega arith)
  From-property b off ps e h (suc (suc n)) lt = property n off ps e (h (suc n) (omega arith))

  From-node :
      (b off k : ℕ) (ps : List ℕ)
      → word_at m off ≡ begin_node
      → IsText m (off + 4) k
      → From b (padding (off + 4 + k)) ps
      → From (k + 1 + b) off ps
  unfolding From
  From-node b off k ps e text h zero lt = absurd (omega arith)
  From-node b off k ps e text h (suc n) lt =
      node n off k ps e text (omega arith) (h n (omega arith))

  From-other :
      (b off w : ℕ) (ps : List ℕ)
      → word_at m off ≡ w
      → w ≢ begin_node
      → w ≢ end_node
      → w ≢ prop
      → w ≢ end
      → From b (off + 4) ps
      → From (suc b) off ps
  unfolding From
  From-other b off w ps e n1 n2 n3 n4 h zero lt = absurd (omega arith)
  From-other b off w ps e n1 n2 n3 n4 h (suc n) lt =
      other n off ps (λ q. n1 (ground (arith, e, q))) (λ q. n2 (ground (arith, e, q)))
        (λ q. n3 (ground (arith, e, q))) (λ q. n4 (ground (arith, e, q))) (h n (omega arith))

  module _ (hdr strings c : ℕ) (header : hdr + word_at m (hdr + 12) ≡ strings) where
    Reads : ℕ → List Item → Type 0
    Reads a xs =
        (ps : List ℕ) × From (steps xs) a ps
        × (first_initial m hdr c ps ≡ first_property m strings c a xs)

    Reads-property :
        (a name : ℕ) (al : a % 4 ≡ 0) (bytes : List ℕ) (xs : List Item)
        → IsProperty m a al name bytes xs
        → Reads (a + size (Format.property name bytes)) xs
        → Reads a (Format.property name bytes ∷ xs)
    unfolding Reads IsProperty steps first_property key_of
    Reads-property a name al bytes xs (token, off_name, behind, h) (ps, from, same) =
        let eight : a + 4 + 4 ≡ a + 8 = omega arith in
        (
          (a + 4) ∷ ps,
          From-property (steps xs) a ps token (rw behind from),
          rw (eight, off_name, header, same) refl,
        )

    Reads-enter :
        (a : ℕ) (al : a % 4 ≡ 0) (name : List ℕ) (xs : List Item)
        → IsNode m a al name xs
        → Reads (a + size (enter name)) xs
        → Reads a (enter name ∷ xs)
    unfolding Reads IsNode steps first_property
    Reads-enter a al name xs (token, text, inl behind, h) (ps, from, same) = (
      ps,
      From-more (length name + 1 + steps xs) (length name + 2 + steps xs) a ps (omega arith)
          (From-node (steps xs) a (length name) ps token text (rw behind from)),
      same,
    )
    Reads-enter a al name xs (token, text, inr (behind, blank), h) (ps, from, same) =
        let p = padding (a + 4 + length name) in
        let place : length name + 1 + suc (steps xs) ≡ length name + 2 + steps xs = omega arith in
        (
          ps,
          rw place at (
              From-node (suc (steps xs)) a (length name) ps token text (
                From-other (steps xs) p 0 ps blank (λ q. omega (arith, q)) (λ q. omega (arith, q))
                  (λ q. omega (arith, q)) (λ q. omega (arith, q)) (rw behind from))),
          same,
        )

    Reads-all :
        (a : ℕ) (xs : List Item) → a % 4 ≡ 0 → AreItems xs → Holds m a (encode xs) → Reads a xs
    unfolding Reads AreItems encode steps first_property size
    Reads-all a [] al items h =
        let (token, rest) = Holds-word m a 9 [] (omega arith) h in
        ([], From-closed a (inr token), refl)
    Reads-all a (enter name ∷ xs) al (clean, items) h =
        let it = parse-enter m a al name xs clean h in
        Reads-enter a al name xs it
          (Reads-all (a + size (enter name)) xs (omega arith) items (node-rest m a al name xs it))
    Reads-all a (Format.property name bytes ∷ xs) al (small, short, items) h =
        let it = parse-property m a al name bytes xs small short h in
        Reads-property a name al bytes xs it (
          Reads-all (a + size (Format.property name bytes)) xs (omega arith) items
            (property-rest m a al name bytes xs it))
    Reads-all a (leave ∷ xs) al items h =
        let (token, rest) = Holds-word m a 2 _ (omega arith) h in
        ([], From-more 0 (suc (steps xs)) a [] (omega arith) (From-closed a (inl token)), refl)
    Reads-all a (nop ∷ xs) al items h =
        let (token, rest) = Holds-word m a 4 _ (omega arith) h in
        let (ps, from, same) = Reads-all (a + 4) xs (omega arith) items rest in
        (
          ps,
          From-other (steps xs) a 4 ps token (λ q. omega (arith, q)) (λ q. omega (arith, q))
              (λ q. omega (arith, q)) (λ q. omega (arith, q)) from,
          same,
        )

header_lem :
    (m : Memory) (hdr magic total_size off_struct off_strings : ℕ) (rest : List ℕ)
    → off_strings < 2 ^ 32
    → Holds m hdr
        (word magic ++ (word total_size ++ (word off_struct ++ (word off_strings ++ rest))))
    → hdr + word_at m (hdr + 12) ≡ hdr + off_strings
unfolding word
header_lem m hdr magic total_size off_struct off_strings rest small h =
    let h1 = Holds-behind m hdr (word magic) _ h in
    let h2 = Holds-behind m (hdr + 4) (word total_size) _ h1 in
    let h3 = Holds-behind m (hdr + 4 + 4) (word off_struct) _ h2 in
    let e = (Holds-word m (hdr + 4 + 4 + 4) off_strings rest small h3).0 in
    let place : hdr + 4 + 4 + 4 ≡ hdr + 12 = omega arith in rw (rw place at e) refl

-- A structure with its end stands at a multiple of 4, and the offset of the strings is the fourth
-- word of the header. With fuel for its tokens and names, `get_prop` from there on returns the entry
-- of the first property, up to the first end of a node, whose name begins with the first character
-- of the key, and `nullptr` exactly if there is none.
pub get_prop-encode :
    (m : Memory) (n hdr magic total_size off_struct off_strings key a : ℕ) (rest : List ℕ)
    (xs : List Item)
    → off_strings < 2 ^ 32
    → Holds m hdr
        (word magic ++ (word total_size ++ (word off_struct ++ (word off_strings ++ rest))))
    → a % 4 ≡ 0
    → AreItems xs
    → Holds m a (encode xs)
    → steps xs < n
    → get_prop n m hdr a key ≡ some (first_property m (hdr + off_strings) (m key) a xs)
unfolding Reads From
get_prop-encode m n hdr magic total_size off_struct off_strings key a rest xs small header al items
      h fuel =
    let strings = header_lem m hdr magic total_size off_struct off_strings rest small header in
    let (ps, from, same) = Reads-all m hdr (hdr + off_strings) (m key) strings a xs al items h in
    get_prop_lem m hdr key n a ps (from n fuel) ∙ ap some same
