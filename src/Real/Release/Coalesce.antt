-- ===== src/Real/Release/Coalesce.antt =====
-- What the loop of `merge` does to a chain of blocks.
use kinnow_os.Prelude.{
  ℕ, zero, suc, ◌+◌, ◌^◌, ◌<◌, ◌≡◌, ◌≢◌, refl, ◌∙◌, inl, inr, true, false, Option, some, List, [],
  ◌∷◌, arith, if◌then◌else◌, Bool-cases, length,
}
use kinnow_os.Real.{Flag, is_not_present, Heap, put}
use kinnow_os.Real.Spec.{Seg, seg, total}
use kinnow_os.Real.Chain.{has, Chain, end, link, segs, frame, frame-segs}
use kinnow_os.Real.Release.{same_flag, absorb, merge_ahead}

-- The blocks two by two: a block takes in the one behind it, if that has the flag `f`, and the loop goes on with the block
-- behind both.
unfoldable pub coalesce : Flag → List Seg → List Seg
coalesce f [] = []
coalesce f (b ∷ []) = b ∷ []
coalesce f (b ∷ n ∷ bs) =
    let rest = coalesce f bs in
    if same_flag n.flags f then seg b.flags (b.size + n.size) ∷ rest else b ∷ n ∷ bs

-- The heap `g` shows `expected` from `s`, by descriptors of `is`, and is as `h` elsewhere.
pub record Merged (h : Heap) (s : Option ℕ) (is : List ℕ) (expected : List Seg) (g : Heap)
    : Type 0 where
  pub is' : List ℕ
  pub chain : Chain g s is'
  pub shows : segs g is' ≡ expected
  pub inside : (k : ℕ) → has k is' ≡ true → has k is ≡ true
  pub same : (k : ℕ) → has k is ≡ false → g k ≡ h k

unchanged : {h : Heap} {s : Option ℕ} {is : List ℕ} → Chain h s is → Merged h s is (segs h is) h
unchanged {is = is} c = record {
  is' = is;
  chain = c;
  shows = refl;
  inside = λ k m. m;
  same = λ k m. refl;
}

pub total-coalesce : (f : Flag) (bs : List Seg) → total (coalesce f bs) ≡ total bs
unfolding coalesce
total-coalesce f [] = refl
total-coalesce f (b ∷ []) = refl
total-coalesce f (b ∷ n ∷ bs) = ground (arith, total-coalesce f bs)

pub absorb_at :
    (h : Heap) (b n : ℕ)
    → n ≢ b
    → (h b).size + (h n).size < 2 ^ 64
    → absorb h b n b ≡ record (h b) { size = (h b).size + (h n).size; next = (h n).next }
unfolding absorb put
absorb_at h b n apart small = ground arith

pub absorb_elsewhere : (h : Heap) (b n k : ℕ) → k ≢ b → k ≢ n → absorb h b n k ≡ h k
unfolding absorb put
absorb_elsewhere h b n k off_b off_n = ground arith

merge_step :
    (f : Flag) (fuel : ℕ) (h : Heap) (b n : ℕ) {s : Option ℕ}
    → (h b).next ≡ some n
    → same_flag (h n).flags f ≡ true
    → (absorb h b n b).next ≡ s
    → merge_ahead (suc fuel) h (some b) f ≡ merge_ahead fuel (absorb h b n) s f
unfolding merge_ahead
merge_step f fuel h b n next match e = rw (merge_ahead, next, match, e) refl

module _ (h g1 g : Heap) (b n : ℕ) (is : List ℕ) {s : Option ℕ} {bs : List Seg}
    (at_b : g1 b ≡ record (h b) { size = (h b).size + (h n).size; next = (h n).next })
    (kept : (k : ℕ) → k ≢ b → k ≢ n → g1 k ≡ h k) (next' : (h n).next ≡ s)
    (here : is_not_present (h b).flags ≡ false) (out : has b (n ∷ is) ≡ false) where
  pub Merged-absorb :
      Merged g1 s is bs g
      → Merged h (some b) (b ∷ n ∷ is) (seg (h b).flags ((h b).size + (h n).size) ∷ bs) g
  Merged-absorb m =
      let e : g b ≡ record (h b) { size = (h b).size + (h n).size; next = (h n).next } =
        m.same b (ground arith) ∙ at_b in
      let b_out : has b m.is' ≡ false = elim (Bool-cases (has b m.is')) [
        | inr absent ↦ absent
        | inl stands ↦ absurd (ground (arith, m.inside b stands))
      ] in
      record {
        is' = b ∷ m.is';
        chain = link (rw e next') (rw e here) b_out m.chain;
        shows = rw (e, m.shows) refl;
        inside = λ k there. ground (arith, m.inside k);
        same = λ k absent.
            m.same k (ground arith) ∙ kept k (λ same. ground arith) (λ same. ground arith);
      }

-- Over a chain that is shorter than the fuel and of less than 2 ^ 64 bytes, the loop of `merge`
-- returns a heap whose chain shows the blocks of `coalesce`, by descriptors of the chain before,
-- and that is as it was elsewhere; `coalesce` takes the blocks two by two.
pub merge_ahead_lem :
    (f : Flag) (fuel : ℕ) (h : Heap) {s : Option ℕ} {is : List ℕ}
    → Chain h s is
    → length is < fuel
    → total (segs h is) < 2 ^ 64
    → (g : Heap) × (merge_ahead fuel h s f ≡ some g) × Merged h s is (coalesce f (segs h is)) g
unfolding merge_ahead coalesce
merge_ahead_lem f zero h c more small = absurd (omega arith)
merge_ahead_lem f (suc fuel) h end more small = (h, refl, unchanged end)
merge_ahead_lem f (suc fuel) h (link {i = b} next here out end) more small =
    (h, rw (merge_ahead, next) refl, unchanged (link next here out end))
merge_ahead_lem f (suc fuel) h
      (link {i = b} next here out (link {i = n} {s = s} {is = is} next' here' out' rest)) more
      small =
    elim (Bool-cases (same_flag (h n).flags f)) [
      | inr differs ↦ (
        h,
        rw (merge_ahead, next, differs) refl,
        rw differs (unchanged (link next here out (link next' here' out' rest))),
      )
      | inl match ↦
          let g1 = absorb h b n in
          let n_b : n ≢ b = λ e. ground arith in
          let at_b = absorb_at h b n n_b (omega arith) in
          let kept : (k : ℕ) → has k is ≡ true → g1 k ≡ h k =
            λ k m. absorb_elsewhere h b n k (λ e. ground arith) (λ e. ground arith) in
          let tail = frame-segs {h = h} {g = g1} is kept in
          let (g, r, m) =
            merge_ahead_lem f fuel g1 (frame rest kept) (omega arith) (rw tail (omega arith)) in
          (
            g,
            merge_step f fuel h b n next match (rw at_b next') ∙ r,
            rw match (
                Merged-absorb h g1 g b n is at_b (λ k. absorb_elsewhere h b n k) next' here out
                  (rw tail at m)),
          )
    ]
