-- ===== src/Real/Walk.antt =====
-- The walk over the blocks of a region finds and cuts the block of the specification.
use kinnow_os.Prelude.{
  ℕ, zero, suc, ◌+◌, ◌^◌, ◌<◌, ◌≡◌, ◌≢◌, refl, inl, inr, true, false, Option, none, some, List, ◌∷◌,
  arith, ◌==◌, Bool-cases, length,
}
use kinnow_os.Real.{is_used, is_not_present, Heap, Outcome, not_found, is_unfit, walk}
use kinnow_os.Real.Spec.{Seg, total, spec_alloc, IsSafe}
use kinnow_os.Real.Chain.{has, Chain, end, link, view, segs}
use kinnow_os.Real.Slots.{IsSpare}
use kinnow_os.Real.Carve.{Cut, carve-Cut}

-- A block in front of the cut stays as it is.
extend-Cut :
    {h : Heap} {b p : ℕ} {s : Option ℕ} {is : List ℕ} {expected : List Seg} {o : Outcome}
    → (h b).next ≡ s
    → is_not_present (h b).flags ≡ false
    → has b is ≡ false
    → Cut h s is expected p o
    → Cut h (some b) (b ∷ is) (view (h b) ∷ expected) p o
extend-Cut {h} {b} next here out c =
    let kept = c.same b out here in
    record {
      heap' = c.heap';
      is' = b ∷ c.is';
      returns = c.returns;
      chain =
          link (rw kept next) (rw kept here)
            (elim (Bool-cases (has b c.is')) [
              | inr absent ↦ absent
              | inl stands ↦ absurd (ground (arith, c.fresh b stands out))
            ])
            c.chain;
      shows = rw (kept, c.shows) refl;
      same = λ a m there. c.same a (ground arith) there;
      fresh = λ a m m'. elim (Bool-cases (a == b)) [
        | inl e ↦ absurd (ground (arith, e))
        | inr ne ↦ c.fresh a (ground arith) (ground arith)
      ];
    }

-- The outcome `o` is what the specification says of the chain `is` from `s`.
abbrev pub Agrees : Heap → Option ℕ → List ℕ → Option (ℕ × List Seg) → Outcome → Type 0
Agrees h s is none o = o ≡ not_found
Agrees h s is (some (p, bs)) o = Cut h s is bs p o

extend-Agrees :
    (h : Heap) (is : List ℕ) (o : Outcome) {b : ℕ} {s : Option ℕ} (next : (h b).next ≡ s)
    (here : is_not_present (h b).flags ≡ false) (out : has b is ≡ false) (r : Option (ℕ × List Seg))
    → Agrees h s is r o
    → Agrees h
        (some b)
        (b ∷ is)
        (elim r [ none ↦ none | some (q, bs) ↦ some (q, view (h b) ∷ bs) ])
        o
extend-Agrees h is o next here out none a = a
extend-Agrees h is o next here out (some (p, bs)) a = extend-Cut next here out a

module _ (h : Heap) (size align k1 k2 : ℕ) (heap_used : is_used (h 0).flags ≡ true)
    (apart : k1 ≢ k2) (spare1 : IsSpare h k1) (spare2 : IsSpare h k2) where
  pub walk_lem :
      (fuel cur : ℕ) {s : Option ℕ} {is : List ℕ}
      → Chain h s is
      → length is < fuel
      → IsSafe size align cur (segs h is)
      → cur + total (segs h is) < 2 ^ 64
      → Agrees h s is (spec_alloc size align cur (segs h is)) (walk fuel h s cur size align)
  unfolding walk spec_alloc IsSafe
  walk_lem zero cur chain more safe small = absurd (omega arith)
  walk_lem (suc fuel) cur end more safe small = refl
  walk_lem (suc fuel) cur (link {i} {is = is} next here out rest) more safe small =
      elim (Bool-cases (is_unfit (h i).flags (h i).size cur size align)) [
        | inr fit ↦ rw fit (
            carve-Cut h i is cur size align heap_used fit here out (rw next rest) (safe.0 fit)
              (omega arith) k1 k2 apart spare1 spare2)
        | inl unfit ↦
            let later = walk_lem fuel (cur + (h i).size) rest (omega arith) safe.1 (omega arith) in
            rw (unfit, next)
              (extend-Agrees h is _ next here out
                (spec_alloc size align (cur + (h i).size) (segs h is)) later)
      ]
