-- ===== src/Real/Chain.antt =====
-- Blocks linked by `next`.
use kinnow_os.Prelude.{
  ℕ, ◌≡◌, refl, Bool, true, false, ◌||◌, Option, none, some, List, [], ◌∷◌, arith, ◌==◌,
}
use kinnow_os.Real.{is_not_present, Block, Heap}
use kinnow_os.Real.Spec.{Seg, seg}

abbrev pub has : ℕ → List ℕ → Bool
has a [] = false
has a (i ∷ is) = a == i || has a is

-- From `s` the `next` pointers lead through the distinct descriptors `is`, all of them in use by
-- the heap, to `nullptr`.
pub data Chain (h : Heap) : Option ℕ → List ℕ → Type 0 where
  end : Chain h none []
  link :
      {i : ℕ} {s : Option ℕ} {is : List ℕ}
      → (h i).next ≡ s
      → is_not_present (h i).flags ≡ false
      → has i is ≡ false
      → Chain h s is
      → Chain h (some i) (i ∷ is)

abbrev pub view : Block → Seg
view b = seg b.flags b.size

abbrev pub segs : Heap → List ℕ → List Seg
segs h [] = []
segs h (i ∷ is) = view (h i) ∷ segs h is

module _ {h g : Heap} where
  -- A chain survives a change that spares its descriptors.
  pub frame :
      {s : Option ℕ} {is : List ℕ}
      → Chain h s is
      → ((k : ℕ) → has k is ≡ true → g k ≡ h k)
      → Chain g s is
  frame end same = end
  frame (link {i} next here out rest) same =
      let e = same i (ground arith) in
      link (ground (arith, e)) (ground (arith, e)) out (frame rest λ k m. same k (ground arith))

  pub frame-segs : (is : List ℕ) → ((k : ℕ) → has k is ≡ true → g k ≡ h k) → segs g is ≡ segs h is
  frame-segs [] same = refl
  frame-segs (i ∷ is) same =
      ground (arith, same i (ground arith), frame-segs is (λ k m. same k (ground arith)))

-- A descriptor that the heap does not use stands in no chain.
pub not-has_of_not_present :
    {h : Heap} {s : Option ℕ} {is : List ℕ} (k : ℕ)
    → Chain h s is
    → is_not_present (h k).flags ≡ true
    → has k is ≡ false
not-has_of_not_present k end m = refl
not-has_of_not_present k (link {i} next here out rest) m =
    ground (arith, not-has_of_not_present k rest m)
