-- ===== src/Virtual/Range.antt =====
-- map_range: every page of the range is translated, where a table is given for each round.
use native.Mathlib.Decide.{ℕ_discrete, dec_lt}
use kinnow_os.Prelude.{
  ℕ, zero, suc, ◌+◌, ◌-◌, ◌*◌, ◌/◌, ◌%◌, ◌^◌, ◌≤◌, ◌<◌, ◌≡◌, ◌≢◌, ◌⊎◌, inl, inr, refl, ◌∙◌, Option,
  some, arith,
}
use kinnow_os.Words.{bit_or}
use kinnow_os.Virtual.{
  Entries, segment_idx, page_idx, virtual_to_real, align_size, map_loop, map_range,
}
use kinnow_os.Virtual.Entries.{segment_idx_lem}
use kinnow_os.Virtual.Translate.{
  IsMapped, WellFormed, Sets, SetsPage, IsFree, segment_idx-lt, map_page-SetsPage, map_page-done,
}
use kinnow_os.Virtual.Pages.{page_of, Sets-same, Sets-other, Sets-WellFormed}

-- The rounds of the loop of map_range.
align_size-pages : (size : ℕ) → size < 2 ^ 63 → align_size size / 4096 ≡ (size + 4095) / 4096
unfolding align_size
align_size-pages size h = ground arith

module _ (segtab : ℕ) (tables : ℕ → ℕ) where
  -- Tables that are different, and free from round `i` up to round `last`.
  pub record IsSupply (m : Entries) (i last : ℕ) : Type 0 where
    pub apart : (j k : ℕ) → j < last → k < last → j ≢ k → tables j ≢ tables k
    pub free : (j : ℕ) → i ≤ j → j < last → IsFree segtab m (tables j)

  Sets-mapped :
      {m m' : Entries} {i k t x : ℕ}
      → Sets segtab m m' i k t x
      → (j : ℕ) → j < 2048
      → IsMapped segtab m j
      → IsMapped segtab m' j
  Sets-mapped {i} s j h old = elim (ℕ_discrete j i) [
    | yes e ↦ rw e (s.mapped)
    | no ne ↦ rw (s.segments j h ne) old
  ]

  -- A round uses at most the table that it is given.
  SetsPage-IsSupply :
      {m m' : Entries} {i last a k x : ℕ}
      → a < 2048
      → SetsPage segtab (some (tables i)) m m' a k x
      → i < last
      → IsSupply m i last
      → IsSupply m' (i + 1) last
  SetsPage-IsSupply {m} {m'} {i} {last} {a} lt done more supply = record {
    apart = supply.apart;
    free = λ j le below.
        let f = supply.free j (omega arith) below in
        record {
          aligned = f.aligned;
          low = f.low;
          table = f.table;
          unused = λ b hb mb. elim (ℕ_discrete b a) [
            | yes e ↦ rw (e, done.sets.origin) (not_source j le below f done.source)
            | no ne ↦
                rw (done.sets.segments b hb ne)
                  (f.unused b hb (rw (done.sets.segments b hb ne) at mb))
          ];
        };
  }
    where
      not_source :
          (j : ℕ)
          → i + 1 ≤ j
          → j < last
          → IsFree segtab m (tables j)
          → IsMapped segtab m a ⊎ (some (tables i) ≡ some (done.t))
          → done.t ≢ tables j
      not_source j le below f (inl old) = rw (← done.sets.kept old) (f.unused a lt old)
      not_source j le below f (inr e) =
          λ q. supply.apart i j more below (λ r. absurd (omega arith)) (cc)

  abbrev given : ℕ → Option ℕ
  given i = some (tables i)

  module _ (v p flags : ℕ) (v_aligned : v % 4096 ≡ 0) (p_aligned : p % 4096 ≡ 0)
      (small : flags < 4096) where
    -- What `n` rounds from round `i` on make of the storage `m`.
    pub record Maps (m m' : Entries) (i n : ℕ) : Type 0 where
      pub well_formed : WellFormed segtab m'
      pub inside :
          (w : ℕ)
          → v + i * 4096 ≤ w
          → w < v + (i + n) * 4096
          → virtual_to_real segtab m' w ≡ p + (w - v)
      pub outside :
          (w : ℕ)
          → w < 2 ^ 31
          → (w < v + i * 4096) ⊎ (v + (i + n) * 4096 ≤ w)
          → IsMapped segtab m (segment_idx w)
          → virtual_to_real segtab m' w ≡ virtual_to_real segtab m w

    Maps-step :
        {m m1 m' : Entries} (i n : ℕ)
        → v + (i + suc n) * 4096 ≤ 2 ^ 31
        → p + (i + suc n) * 4096 ≤ 2 ^ 32
        → WellFormed segtab m
        → SetsPage segtab
            (given i)
            m
            m1
            (segment_idx (v + i * 4096))
            (page_idx (v + i * 4096))
            (bit_or (p + i * 4096) flags)
        → Maps m1 m' (i + 1) n
        → Maps m m' i (suc n)
    Maps-step {m} {m1} {m'} i n v_fits p_fits wf done rest = record {
      well_formed = rest.well_formed;
      inside = λ w above below. elim (dec_lt w (v + (i + 1) * 4096)) [
        | yes first ↦
            let page : page_of w ≡ page_of (v + i * 4096) = omega arith in
            let seg : segment_idx w ≡ segment_idx (v + i * 4096) =
              omega (arith, segment_idx_lem w, segment_idx_lem (v + i * 4096)) in
            rest.outside w (omega arith) (inl first) (rw seg done.sets.mapped)
            ∙ Sets-same segtab (v + i * 4096) (p + i * 4096) flags done.t wf done.sets w
                (omega arith) small page
            ∙ (let e : (p + i * 4096) % 2 ^ 32 + w % 4096 ≡ p + (w - v) = omega arith in e)
        | no later ↦ rest.inside w (omega arith) (omega arith)
      ];
      outside = λ w low apart old.
          rest.outside w low (ground (arith, apart))
            (Sets-mapped done.sets (segment_idx w) (segment_idx-lt segtab w) old)
          ∙ Sets-other segtab (v + i * 4096) (p + i * 4096) flags done.t wf done.sets w
              (ground (arith, apart)) (inl old);
    }

    map_loop-Maps :
        (n i last : ℕ) (m : Entries)
        → i + n ≤ last
        → WellFormed segtab m
        → IsSupply m i last
        → v + (i + n) * 4096 ≤ 2 ^ 31
        → p + (i + n) * 4096 ≤ 2 ^ 32
        → Maps m (map_loop segtab given v p flags i n m) i n
    unfolding map_loop
    map_loop-Maps zero i last m more wf supply v_fits p_fits = record {
      well_formed = wf;
      inside = λ w above below. absurd (omega arith);
      outside = λ w low apart old. refl;
    }
    map_loop-Maps (suc n) i last m more wf supply v_fits p_fits =
        let low : (v + i * 4096) % 2 ^ 64 ≡ v + i * 4096 = omega arith in
        let frame : (p + i * 4096) % 2 ^ 64 ≡ p + i * 4096 = omega arith in
        let free = supply.free i (omega arith) (omega arith) in
        let step =
          map_page-SetsPage segtab (given i) m (v + i * 4096) (p + i * 4096) flags wf free
            (map_page-done segtab (tables i) m (v + i * 4096) (p + i * 4096) flags wf) in
        rw (low, frame)
          (Maps-step i n v_fits p_fits wf step (
            map_loop-Maps n (i + 1) last _ (omega arith)
              (Sets-WellFormed segtab (v + i * 4096) (p + i * 4096) flags step.t wf step.sets)
              (SetsPage-IsSupply (segment_idx-lt segtab (v + i * 4096)) step (omega arith) supply)
              (omega arith) (omega arith)))

    -- For a range and frames at multiples of 4096, the range up to 2 GiB and the frames up to 4 GiB,
    -- flags below 4096, and where tables are given that are aligned, unused, apart and below 4 GiB:
    -- map_range keeps the invariant, and translates every address of the range to its place behind
    -- the first frame. Addresses below 2 GiB outside of the pages of the range, whose segment has a
    -- table, keep their translation.
    pub map_range_lem :
        (size : ℕ) (m : Entries)
        → WellFormed segtab m
        → IsSupply m 0 ((size + 4095) / 4096)
        → v + size ≤ 2 ^ 31
        → p + size ≤ 2 ^ 32
        → WellFormed segtab (map_range segtab given v p flags size m).1
          × ((w : ℕ)
              → v ≤ w
              → w < v + size
              → virtual_to_real segtab (map_range segtab given v p flags size m).1 w ≡ p + (w - v))
          × ((w : ℕ)
              → w < 2 ^ 31
              → (w < v) ⊎ (v + (size + 4095) / 4096 * 4096 ≤ w)
              → IsMapped segtab m (segment_idx w)
              → virtual_to_real segtab (map_range segtab given v p flags size m).1 w
                ≡ virtual_to_real segtab m w)
    unfolding map_range
    map_range_lem size m wf supply v_fits p_fits =
        let rounds : align_size size / 4096 ≡ (size + 4095) / 4096 =
          align_size-pages size (omega arith) in
        let maps =
          map_loop-Maps ((size + 4095) / 4096) 0 ((size + 4095) / 4096) m (omega arith) wf supply
            (omega arith) (omega arith) in
        rw rounds (
          maps.well_formed,
          λ w above below. maps.inside w (omega arith) (omega arith),
          λ w low apart old. maps.outside w low (ground (arith, apart)) old,
        )
