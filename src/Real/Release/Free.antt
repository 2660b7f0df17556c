-- ===== src/Real/Release/Free.antt =====
-- `free` keeps the tiling of a region.
use kinnow_os.Prelude.{
  ℕ, zero, suc, ◌+◌, ◌^◌, ◌<◌, ◌≤◌, ◌≡◌, ◌≢◌, refl, ◌∙◌, inl, inr, true, false, Option, none, some,
  List, ◌∷◌, arith, ltb, leb, Bool-cases, length,
}
use kinnow_os.Real.{free, is_not_present, Heap, put}
use kinnow_os.Real.Spec.{Seg, total}
use kinnow_os.Real.Chain.{has, Chain, end, link, view, segs, frame, frame-segs}
use kinnow_os.Real.Release.{same_flag, absorb, merge_ahead, merge, free_walk}
use kinnow_os.Real.Release.Coalesce.{
  coalesce, total-coalesce, Merged, merge_ahead_lem, absorb_at, absorb_elsewhere,
}

-- The heap `g` shows blocks of `bytes` bytes together from `s`, by descriptors of `is`, and is as
-- `h` elsewhere.
pub record Tiled (h : Heap) (s : Option ℕ) (is : List ℕ) (bytes : ℕ) (g : Heap) : Type 0 where
  pub expected : List Seg
  pub merged : Merged h s is expected g
  pub bytes_eq : total expected ≡ bytes

-- A block in front stays as it is.
extend-Tiled :
    (h g : Heap) (p bytes : ℕ) {s : Option ℕ} {is : List ℕ}
    → (h p).next ≡ s
    → is_not_present (h p).flags ≡ false
    → has p is ≡ false
    → Tiled h s is bytes g
    → Tiled h (some p) (p ∷ is) ((h p).size + bytes) g
extend-Tiled h g p bytes next here out t =
    let m = t.merged in
    let e : g p ≡ h p = m.same p out in
    record {
      expected = view (h p) ∷ t.expected;
      merged = record {
        is' = p ∷ m.is';
        chain =
            link (rw e next) (rw e here)
              (elim (Bool-cases (has p m.is')) [
                | inr absent ↦ absent
                | inl stands ↦ absurd (ground (arith, m.inside p stands, out))
              ])
              m.chain;
        shows = rw (e, m.shows) refl;
        inside = λ k there. ground (arith, m.inside k);
        same = λ k absent. m.same k (ground arith);
      };
      bytes_eq = rw t.bytes_eq refl;
    }

-- The block `b`, once free, and the loop of `merge` from there.
module _ (fuel : ℕ) (h : Heap) (b : ℕ) {s : Option ℕ} {is : List ℕ} (next : (h b).next ≡ s)
    (here : is_not_present (h b).flags ≡ false) (out : has b is ≡ false) (rest : Chain h s is)
    (more : length is + 1 < fuel) (small : (h b).size + total (segs h is) < 2 ^ 64) where
  abbrev freed : Heap
  freed = put h b (record (h b) { flags = free })

  merge_here :
      (g : Heap) × (merge_ahead fuel freed (some b) free ≡ some g)
      × Tiled h (some b) (b ∷ is) ((h b).size + total (segs h is)) g
  unfolding put
  merge_here =
      let kept : (k : ℕ) → has k is ≡ true → freed k ≡ h k = λ k m. ground arith in
      let at : freed b ≡ record (h b) { flags = free } = ground arith in
      let tail = frame-segs {h = h} {g = freed} is kept in
      let chain : Chain freed (some b) (b ∷ is) =
        link (rw at next) (rw at refl) out (frame rest kept) in
      let size_eq : total (segs freed (b ∷ is)) ≡ (h b).size + total (segs h is) =
        rw (at, tail) refl in
      let (g, r, m) = merge_ahead_lem free fuel freed chain (omega arith) (rw size_eq small) in
      (
        g,
        r,
        record {
          expected = coalesce free (segs freed (b ∷ is));
          merged = record {
            is' = m.is';
            chain = m.chain;
            shows = m.shows;
            inside = m.inside;
            same = λ k absent. m.same k absent ∙ ground arith;
          };
          bytes_eq = total-coalesce free (segs freed (b ∷ is)) ∙ size_eq;
        },
      )

  -- With the free block `p` in front.
  merge_back :
      (p : ℕ)
      → (h p).next ≡ some b
      → is_not_present (h p).flags ≡ false
      → has p (b ∷ is) ≡ false
      → (h p).size + ((h b).size + total (segs h is)) < 2 ^ 64
      → (g : Heap) × (merge_ahead fuel (absorb freed p b) (some p) free ≡ some g)
        × Tiled h (some p) (p ∷ b ∷ is) ((h p).size + ((h b).size + total (segs h is))) g
  unfolding put
  merge_back p next_p here_p out_p small_p =
      let b_p : b ≢ p = λ e. ground arith in
      let f_b : freed b ≡ record (h b) { flags = free } = ground arith in
      let f_p : freed p ≡ h p = ground arith in
      let g1 = absorb freed p b in
      let fit : (freed p).size + (freed b).size < 2 ^ 64 = rw (f_b, f_p) (omega arith) in
      let at : g1 p ≡ record (h p) { size = (h p).size + (h b).size; next = (h b).next } =
        absorb_at freed p b b_p fit ∙ rw (f_p, f_b) refl in
      let kept : (k : ℕ) → k ≢ p → k ≢ b → g1 k ≡ h k =
        λ k off_p off_b. absorb_elsewhere freed p b k off_p off_b ∙ ground arith in
      let kept_is : (k : ℕ) → has k is ≡ true → g1 k ≡ h k =
        λ k m. kept k (λ e. ground arith) (λ e. ground arith) in
      let tail = frame-segs {h = h} {g = g1} is kept_is in
      let p_out : has p is ≡ false = ground arith in
      let chain : Chain g1 (some p) (p ∷ is) =
        link (rw at next) (rw at here_p) p_out (frame rest kept_is) in
      let size_eq : total (segs g1 (p ∷ is)) ≡ (h p).size + ((h b).size + total (segs h is)) =
        rw (at, tail) (omega arith) in
      let (g, r, m) = merge_ahead_lem free fuel g1 chain (omega arith) (rw size_eq small_p) in
      (
        g,
        r,
        record {
          expected = coalesce free (segs g1 (p ∷ is));
          merged = record {
            is' = m.is';
            chain = m.chain;
            shows = m.shows;
            inside = λ k there. ground (arith, m.inside k);
            same = λ k absent.
                m.same k (ground arith) ∙ kept k (λ e. ground arith) (λ e. ground arith);
          };
          bytes_eq = total-coalesce free (segs g1 (p ∷ is)) ∙ size_eq;
        },
      )

free_walk_prev :
    (fuel : ℕ) (h : Heap) (p cur ptr : ℕ) {s : Option ℕ} {is : List ℕ}
    → (h p).next ≡ s
    → is_not_present (h p).flags ≡ false
    → has p is ≡ false
    → Chain h s is
    → length is + 1 < fuel
    → (h p).size + total (segs h is) < 2 ^ 64
    → cur ≤ ptr
    → ptr < cur + total (segs h is)
    → (g : Heap) × (free_walk fuel h (some p) s cur ptr ≡ some (true, g))
      × Tiled h (some p) (p ∷ is) ((h p).size + total (segs h is)) g
unfolding free_walk merge put
free_walk_prev zero h p cur ptr next_p here_p out_p c more small from below = absurd (omega arith)
free_walk_prev (suc fuel) h p cur ptr next_p here_p out_p end more small from below =
    absurd (omega arith)
free_walk_prev (suc fuel) h p cur ptr next_p here_p out_p
      (link {i = b} {is = is} next here out rest) more small from below =
    let low : leb cur ptr ≡ true = ground arith in
    elim (Bool-cases (ltb ptr (cur + (h b).size))) [
      | inl inside ↦
          let f_p : freed fuel h b next here out rest (omega arith) (omega arith) p ≡ h p =
            ground arith in
          elim (Bool-cases (same_flag (h p).flags free)) [
            | inl match ↦
                let (g, r, t) =
                  merge_back fuel h b next here out rest (omega arith) (omega arith) p next_p here_p
                    out_p small in
                (g, rw (free_walk, low, inside, f_p, match, r) refl, t)
            | inr differs ↦
                let (g, r, t) =
                  merge_here fuel h b next here out rest (omega arith) (omega arith) in
                (
                  g,
                  rw (free_walk, low, inside, f_p, differs, r) refl,
                  extend-Tiled h g p _ next_p here_p out_p t,
                )
          ]
      | inr beyond ↦
          let not_past : ltb ptr cur ≡ false = ground arith in
          let (g, r, t) =
            free_walk_prev fuel h b (cur + (h b).size) ptr next here out rest (omega arith)
              (omega arith) (ground arith) (omega arith) in
          (
            g,
            rw (free_walk, low, beyond, not_past, next, r) refl,
            extend-Tiled h g p _ next_p here_p out_p t,
          )
    ]

-- Freeing an address inside the blocks of a region returns, and the blocks tile as many bytes as
-- before, by descriptors that they had, while the others stay as they are: for a chain shorter than
-- the fuel less one and of less than 2 ^ 64 bytes.
pub free_walk_lem :
    (fuel : ℕ) (h : Heap) (cur ptr : ℕ) {s : Option ℕ} {is : List ℕ}
    → Chain h s is
    → length is + 1 < fuel
    → total (segs h is) < 2 ^ 64
    → cur ≤ ptr
    → ptr < cur + total (segs h is)
    → (g : Heap) × (free_walk fuel h none s cur ptr ≡ some (true, g))
      × Tiled h s is (total (segs h is)) g
unfolding free_walk merge put
free_walk_lem zero h cur ptr c more small from below = absurd (omega arith)
free_walk_lem (suc fuel) h cur ptr end more small from below = absurd (omega arith)
free_walk_lem (suc fuel) h cur ptr (link {i = b} {is = is} next here out rest) more small from
      below =
    let low : leb cur ptr ≡ true = ground arith in
    elim (Bool-cases (ltb ptr (cur + (h b).size))) [
      | inl inside ↦
          let (g, r, t) = merge_here fuel h b next here out rest (omega arith) (omega arith) in
          (g, rw (free_walk, low, inside, r) refl, t)
      | inr beyond ↦
          let not_past : ltb ptr cur ≡ false = ground arith in
          let (g, r, t) =
            free_walk_prev fuel h b (cur + (h b).size) ptr next here out rest (omega arith)
              (omega arith) (ground arith) (omega arith) in
          (g, rw (free_walk, low, beyond, not_past, next, r) refl, t)
    ]
