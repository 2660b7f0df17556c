-- ===== src/Virtual/Reverse.antt =====
-- phys2virt: the address that it finds is translated back, and it finds one where there is one.
use native.Mathlib.Decide.{ℕ_discrete}
use kinnow_os.Prelude.{
  ◌⊎◌, subst, sym, ℕ, zero, suc, ◌+◌, ◌*◌, ◌%◌, ◌^◌, ◌≤◌, ◌<◌, ◌≡◌, inl, inr, ◌↔◌, refl, ◌∙◌,
  Option, none, some, false, arith, Bool-cases, ◌==◌, ==_iff,
}
use kinnow_os.Words.{join_bits, bit_or, bit_and}
use kinnow_os.Virtual.{
  Entries, segment_invalid, page_origin, page_invalid, segment_idx, page_idx, virtual_to_real,
  find_page, find_segment, phys2virt, or_null,
}
use kinnow_os.Virtual.Entries.{segment_idx_lem, page_idx_lem, page_origin_lem, join-offset}
use kinnow_os.Virtual.Translate.{IsMapped, table_of, WellFormed}
use kinnow_os.Virtual.Pages.{translated}

-- The address that is made of a segment, a page and the offset in a frame.
abbrev address : ℕ → ℕ → ℕ → ℕ
address i j p = bit_or (bit_or (i * 2 ^ 20) (j * 2 ^ 12)) (bit_and p 0xfff)

address_lem : (i j p : ℕ) → j < 256 → p % 4096 ≡ 0 → address i j p ≡ i * 2 ^ 20 + j * 2 ^ 12
address_lem i j p h al =
    let e : bit_or (i * 2 ^ 20) (j * 2 ^ 12) ≡ i * 2 ^ 20 + j * 2 ^ 12 =
      join_bits 20 (i * 2 ^ 20) i (j * 2 ^ 12) refl (omega arith) in
    rw e (join-offset (i * 2 ^ 20 + j * 2 ^ 12) p (omega arith) ∙ (omega arith))

-- A page of the table at `tab` with the frame `p`.
abbrev pub Shows : Entries → ℕ → ℕ → ℕ → Type 0
Shows m tab p k = (page_invalid (m (tab + 8 * k)) ≡ false) × (page_origin (m (tab + 8 * k)) ≡ p)

-- What the search among `n` entries from `j` on comes to.
abbrev PageFound : Entries → ℕ → ℕ → ℕ → ℕ → ℕ → Option ℕ → Type 0
PageFound m tab p i j n none = (k : ℕ) → j ≤ k → k < j + n → ¬ Shows m tab p k
PageFound m tab p i j n (some v) =
    (k : ℕ) × (j ≤ k) × (k < j + n) × Shows m tab p k × (v ≡ address i k p)

PageFound-next :
    (m : Entries) (tab p i j n : ℕ) (o : Option ℕ)
    → ¬ Shows m tab p j
    → PageFound m tab p i (j + 1) n o
    → PageFound m tab p i j (suc n) o
PageFound-next m tab p i j n none not_here later = λ k above below. elim (ℕ_discrete k j) [
  | yes e ↦ rw e not_here
  | no ne ↦ later k (omega arith) (omega arith)
]
PageFound-next m tab p i j n (some v) not_here (k, above, below, shows, e) =
    (k, omega arith, omega arith, shows, e)

find_page_lem : (m : Entries) (tab p i j n : ℕ) → PageFound m tab p i j n (find_page m tab p i j n)
unfolding find_page
find_page_lem m tab p i j zero = λ k a b. absurd (omega arith)
find_page_lem m tab p i j (suc n) =
    let next = PageFound-next m tab p i j n (find_page m tab p i (j + 1) n) in
    let later = find_page_lem m tab p i (j + 1) n in
    elim (Bool-cases (page_invalid (m (tab + 8 * j)))) [
      | inl bad ↦ rw bad (next (λ shows. cc (bad, shows.0)) later)
      | inr good ↦ elim (Bool-cases (page_origin (m (tab + 8 * j)) == p)) [
        | inl e ↦ rw (good, e) (j, omega arith, omega arith, (good, (==_iff _ p).0 e), refl)
        | inr ne ↦ rw (good, ne) (next (λ shows. cc (ne, (==_iff _ p).1 shows.1)) later)
      ]
    ]

find_page-first :
    (m : Entries) (tab p i j n : ℕ)
    → Shows m tab p j
    → find_page m tab p i j (suc n) ≡ some (address i j p)
unfolding find_page
find_page-first m tab p i j n (valid, frame) = rw (valid, (==_iff _ p).1 frame) refl

module _ (segtab : ℕ) where
  -- What the search among `n` segments from `i` on comes to.
  abbrev SegmentFound : Entries → ℕ → ℕ → ℕ → Option ℕ → Type 0
  SegmentFound m p i n none =
      (a : ℕ)
      → i ≤ a
      → a < i + n
      → IsMapped segtab m a
      → (k : ℕ) → k < 256
      → ¬ Shows m (table_of segtab m a) p k
  SegmentFound m p i n (some v) =
      (a : ℕ) × (k : ℕ) × (i ≤ a)
      × (a < i + n)
      × (k < 256)
      × IsMapped segtab m a
      × Shows m (table_of segtab m a) p k
      × (v ≡ address a k p)

  SegmentFound-next :
      (m : Entries) (p i n : ℕ) (o : Option ℕ)
      → (IsMapped segtab m i → (k : ℕ) → k < 256 → ¬ Shows m (table_of segtab m i) p k)
      → SegmentFound m p (i + 1) n o
      → SegmentFound m p i (suc n) o
  SegmentFound-next m p i n none not_here later = λ a above below ma k lt. elim (ℕ_discrete a i) [
    | yes e ↦ rw e (not_here (rw e at ma) k lt)
    | no ne ↦ later a (omega arith) (omega arith) ma k lt
  ]
  SegmentFound-next m p i n (some v) not_here (a, k, above, below, lt, ma, shows, e) =
      (a, k, omega arith, omega arith, lt, ma, shows, e)

  find_segment_lem : (m : Entries) (p i n : ℕ) → SegmentFound m p i n (find_segment segtab m p i n)
  unfolding find_segment
  find_segment_lem m p i zero = λ a b c. absurd (omega arith)
  find_segment_lem m p i (suc n) =
      let next = SegmentFound-next m p i n in
      let later = find_segment_lem m p (i + 1) n in
      elim (Bool-cases (segment_invalid (m (segtab + 8 * i)))) [
        | inl bad ↦ rw bad (next _ (λ good. cc (bad, good)) later)
        | inr good ↦ rw good (
            among (find_page m (table_of segtab m i) p i 0 256) good
              (find_page_lem m (table_of segtab m i) p i 0 256) later)
      ]
    where
      among :
          (o : Option ℕ)
          → IsMapped segtab m i
          → PageFound m (table_of segtab m i) p i 0 256 o
          → SegmentFound m p (i + 1) n (find_segment segtab m p (i + 1) n)
          → SegmentFound m p i
              (suc n)
              (elim o [ some v ↦ some v | none ↦ find_segment segtab m p (i + 1) n ])
      among none good nowhere later =
          SegmentFound-next m p i n _ (λ _ k lt. nowhere k (omega arith) (omega arith)) later
      among (some v) good (k, above, below, shows, e) later =
          (i, k, omega arith, omega arith, omega arith, good, shows, e)

  -- A page that shows the frame `p`.
  abbrev pub ShownAt : Entries → ℕ → ℕ → ℕ → Type 0
  ShownAt m p i k = IsMapped segtab m i × Shows m (table_of segtab m i) p k

  find_segment-first :
      (m : Entries) (p i n : ℕ)
      → ShownAt m p i 0
      → find_segment segtab m p i (suc n) ≡ some (address i 0 p)
  unfolding find_segment
  find_segment-first m p i n (mapped, shows) =
      rw (mapped, find_page-first m (table_of segtab m i) p i 0 255 shows) refl

  find_segment-back :
      (m : Entries) (p i k : ℕ)
      → WellFormed segtab m
      → i < 2048
      → k < 256
      → ShownAt m p i k
      → (virtual_to_real segtab m (address i k p) ≡ p) × (address i k p ≡ i * 2 ^ 20 + k * 2 ^ 12)
  find_segment-back m p i k wf hi hk (mapped, shows) =
      let al : p % 4096 ≡ 0 =
        omega (arith, shows.1, page_origin_lem (m (table_of segtab m i + 8 * k))) in
      let at_address : address i k p ≡ i * 2 ^ 20 + k * 2 ^ 12 = address_lem i k p hk al in
      let seg : segment_idx (address i k p) ≡ i =
        omega (arith, at_address, segment_idx_lem (address i k p)) in
      let pg : page_idx (address i k p) ≡ k =
        omega (arith, at_address, page_idx_lem (address i k p)) in
      (
        translated segtab m (address i k p) (rw seg mapped) (rw seg (wf.present i hi mapped).0)
            ∙ rw (seg, pg, shows.1) (omega (arith, at_address)),
        at_address,
      )

  -- phys2virt returns the null pointer or an address that is translated to the frame, and it returns
  -- the null pointer exactly where no valid page of a segment with a table shows the frame, or where
  -- the very first page, which is at the address 0, shows it.
  pub phys2virt_lem :
      (m : Entries) (p : ℕ)
      → WellFormed segtab m
      → ((phys2virt segtab m p ≡ 0) ⊎ (virtual_to_real segtab m (phys2virt segtab m p) ≡ p))
        × ((phys2virt segtab m p ≡ 0)
            ↔ (ShownAt m p 0 0 ⊎ ((i k : ℕ) → i < 2048 → k < 256 → ¬ ShownAt m p i k)))
  unfolding phys2virt
  phys2virt_lem m p wf =
      by_result (find_segment segtab m p 0 2048) refl (find_segment_lem m p 0 2048)
    where
      null_first : (w : ℕ) → some w ≡ some (address 0 0 p) → ShownAt m p 0 0 → w ≡ 0
      null_first w same shown =
          let (back, place) = find_segment-back m p 0 0 wf (omega arith) (omega arith) shown in
          let at : w ≡ address 0 0 p = cc in at ∙ place

      by_result :
          (o : Option ℕ)
          → find_segment segtab m p 0 2048 ≡ o
          → SegmentFound m p 0 2048 o
          → ((or_null segtab o ≡ 0) ⊎ (virtual_to_real segtab m (or_null segtab o) ≡ p))
            × ((or_null segtab o ≡ 0)
                ↔ (ShownAt m p 0 0 ⊎ ((i k : ℕ) → i < 2048 → k < 256 → ¬ ShownAt m p i k)))
      by_result none run nowhere = (
        inl refl,
        (λ _. inr (λ i k hi hk shown. nowhere i (omega arith) hi shown.0 k hk shown.1), λ _. refl),
      )
      by_result (some w) run (i, k, above, hi, hk, mapped, shows, e) =
          let (back, place) = find_segment-back m p i k wf hi hk (mapped, shows) in
          (
            inr (rw e back),
            (
              λ q.
                  let first : (i ≡ 0) × (k ≡ 0) =
                    (omega (arith, e, place, q), omega (arith, e, place, q)) in
                  inl (
                    subst (λ x. ShownAt m p x 0) first.0
                      (subst (λ x. ShownAt m p i x) first.1 (mapped, shows))),
              λ reason. elim reason [
                | inl first ↦ null_first w (sym run ∙ find_segment-first m p 0 2047 first) first
                | inr never ↦ absurd (never i k hi hk (mapped, shows))
              ],
            ),
          )
