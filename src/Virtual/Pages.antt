-- ===== src/Virtual/Pages.antt =====
-- map_page against virtual_to_real: the page that is mapped, the others, and the invariant.
use native.Mathlib.Decide.{ℕ_discrete}
use kinnow_os.Prelude.{
  ℕ, ◌+◌, ◌*◌, ◌/◌, ◌%◌, ◌^◌, ◌<◌, ◌≡◌, ◌≢◌, ◌⊎◌, inl, inr, refl, sym, ◌∙◌, Option, arith, ==_ne,
  true, Bool-cases,
}
use kinnow_os.Prelude.Int.{pos}
use kinnow_os.Words.{bit_or}
use kinnow_os.Virtual.{
  Entries, segment_invalid, page_origin, segment_idx, page_idx, map_page, virtual_to_real,
}
use kinnow_os.Virtual.Entries.{
  segment_idx_lem, page_idx_lem, page_origin_lem, page_origin-bit_or, join-offset,
}
use kinnow_os.Virtual.Translate.{
  IsMapped, table_of, WellFormed, Sets, IsReady, segment_idx-lt, page_idx-lt, map_page-SetsPage,
  aligned-origin,
}

-- The number of the page of an address, in the 2 GiB that the two tables cover.
abbrev pub page_of : ℕ → ℕ
page_of v = v / 4096 % 2 ^ 19

indices :
    (v w : ℕ) → page_of v ≡ page_of w → (segment_idx v ≡ segment_idx w) × (page_idx v ≡ page_idx w)
indices v w e = omega (arith, segment_idx_lem v, segment_idx_lem w, page_idx_lem v, page_idx_lem w)

page-indices :
    (v w : ℕ) → segment_idx v ≡ segment_idx w → page_idx v ≡ page_idx w → page_of v ≡ page_of w
page-indices v w e f =
    omega (arith, segment_idx_lem v, segment_idx_lem w, page_idx_lem v, page_idx_lem w)

module _ (segtab : ℕ) where
  -- The translation of an address in a segment with a table.
  pub translated :
      (m : Entries) (v : ℕ)
      → IsMapped segtab m (segment_idx v)
      → 0 < table_of segtab m (segment_idx v)
      → virtual_to_real segtab m v
        ≡ page_origin (m (table_of segtab m (segment_idx v) + 8 * page_idx v)) + v % 4096
  unfolding virtual_to_real
  translated m v mapped some_table =
      let entry = m (table_of segtab m (segment_idx v) + 8 * page_idx v) in
      rw (mapped, ==_ne (table_of segtab m (segment_idx v)) 0 (λ e. omega arith))
        (join-offset (page_origin entry) v (omega (arith, page_origin_lem entry)))

  pub untranslated :
      (m : Entries) (v : ℕ)
      → segment_invalid (m (segtab + 8 * segment_idx v)) ≡ true
      → virtual_to_real segtab m v ≡ 0
  unfolding virtual_to_real
  untranslated m v bad = rw bad

  module _ {m m' : Entries} (v p flags t : ℕ) (wf : WellFormed segtab m)
      (s : Sets segtab m m' (segment_idx v) (page_idx v) t (bit_or p flags)) where
    open s use {table, aligned, unused, mapped, origin, kept, entry, segments, pages, siblings}

    pub Sets-same :
        (w : ℕ)
        → p % 4096 ≡ 0
        → flags < 4096
        → page_of w ≡ page_of v
        → virtual_to_real segtab m' w ≡ p % 2 ^ 32 + w % 4096
    Sets-same w al small e =
        let si = (indices w v e).0 in
        let pi = (indices w v e).1 in
        translated m' w (rw si mapped) (rw (si, origin) (table.0))
        ∙ rw (si, pi, origin, entry, page_origin-bit_or p flags al small) refl

    pub Sets-other :
        (w : ℕ)
        → page_of w ≢ page_of v
        → IsMapped segtab m (segment_idx w) ⊎ (segment_idx w ≢ segment_idx v)
        → virtual_to_real segtab m' w ≡ virtual_to_real segtab m w
    Sets-other w ne h = elim (ℕ_discrete (segment_idx w) (segment_idx v)) [
      | yes e ↦
          let old : IsMapped segtab m (segment_idx v) = elim h [
            | inl o ↦ rw (← e) o
            | inr apart ↦ absurd (apart e)
          ] in
          let other : page_idx w ≢ page_idx v = λ f. ne (page-indices w v e f) in
          translated m' w (rw e mapped) (rw (e, origin) (table.0))
          ∙ rw (e, origin, siblings (page_idx w) (page_idx-lt segtab w) other old)
              (rw (e, kept old) at (sym (translated m w (rw e old) (rw (e, kept old) (table.0)))))
      | no apart ↦
          let same = segments (segment_idx w) (segment_idx-lt segtab w) apart in
          elim (Bool-cases (segment_invalid (m (segtab + 8 * segment_idx w)))) [
            | inl bad ↦ untranslated m' w (rw same bad) ∙ sym (untranslated m w bad)
            | inr old ↦
                let lt = segment_idx-lt segtab w in
                let it = wf.present (segment_idx w) lt old in
                translated m' w (rw same old) (rw same (it.0))
                ∙ rw
                    (
                      same,
                      pages (table_of segtab m (segment_idx w)) (page_idx w) it
                          (aligned-origin segtab (m (segtab + 8 * segment_idx w)))
                          (page_idx-lt segtab w) (unused (segment_idx w) lt apart old),
                    )
                    (sym (translated m w old (it.0)))
          ]
    ]

    pub Sets-WellFormed : WellFormed segtab m'
    Sets-WellFormed = record {
      present = λ i h mi. elim (ℕ_discrete i (segment_idx v)) [
        | yes e ↦ rw (e, origin) table
        | no ne ↦ rw (segments i h ne) (wf.present i h (rw (segments i h ne) at mi))
      ];
      distinct = λ i j hi hj ne mi mj. elim (ℕ_discrete i (segment_idx v)) [
        | yes e ↦
            let other : j ≢ segment_idx v = λ f. ne (e ∙ sym f) in
            let old = rw (segments j hj other) at mj in
            rw (e, origin, segments j hj other) (λ q. unused j hj other old (sym q))
        | no apart ↦ elim (ℕ_discrete j (segment_idx v)) [
          | yes f ↦
              let old = rw (segments i hi apart) at mi in
              rw (f, origin, segments i hi apart) (λ q. unused i hi apart old q)
          | no away ↦
              let old = rw (segments i hi apart) at mi in
              let old' = rw (segments j hj away) at mj in
              rw (segments i hi apart, segments j hj away) (wf.distinct i j hi hj ne old old')
        ]
      ];
    }

  -- For a frame at a multiple of 4096 and flags below 4096, and where a new table is aligned, unused
  -- and below 4 GiB: a call of map_page that returns 0 keeps the invariant, makes the page of the
  -- address show the frame cut to 32 bits, and leaves the other pages of segments that have a table
  -- and of other segments.
  pub map_page_lem :
      (fresh : Option ℕ) (m : Entries) (v p flags : ℕ)
      → WellFormed segtab m
      → IsReady segtab fresh m
      → p % 4096 ≡ 0
      → flags < 4096
      → (map_page segtab fresh v p flags m).0 ≡ pos 0
      → WellFormed segtab (map_page segtab fresh v p flags m).1
        × ((w : ℕ)
            → page_of w ≡ page_of v
            → virtual_to_real segtab (map_page segtab fresh v p flags m).1 w
              ≡ p % 2 ^ 32 + w % 4096)
        × ((w : ℕ)
            → page_of w ≢ page_of v
            → IsMapped segtab m (segment_idx w) ⊎ (segment_idx w ≢ segment_idx v)
            → virtual_to_real segtab (map_page segtab fresh v p flags m).1 w
              ≡ virtual_to_real segtab m w)
  map_page_lem fresh m v p flags wf ready al small done =
      let done = map_page-SetsPage segtab fresh m v p flags wf ready done in
      let s = done.sets in
      (
        Sets-WellFormed v p flags done.t wf s,
        λ w e. Sets-same v p flags done.t wf s w al small e,
        λ w ne h. Sets-other v p flags done.t wf s w ne h,
      )
