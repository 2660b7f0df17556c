-- ===== src/Virtual/New.antt =====
-- A new address space, and a new table of pages in it.
use kinnow_os.Prelude.{ℕ, ◌+◌, ◌*◌, ◌/◌, ◌%◌, ◌<◌, ◌≡◌, ◌≢◌, refl, ◌∙◌, none, some, true, arith}
use kinnow_os.Words.{join_bits, bit_or}
use kinnow_os.Virtual.{
  Entries, create, segment_invalid, page_origin, segment_idx, page_idx, map_page, map_new,
  virtual_to_real, invalidate, write,
}
use kinnow_os.Virtual.Entries.{
  invalidate-inside, segment_invalid-marked, page_origin-marked, write-other,
}
use kinnow_os.Virtual.Translate.{
  WellFormed, IsFree, segment_idx-lt, page_idx-lt, map_new-Sets, set_page-other,
}
use kinnow_os.Virtual.Pages.{translated, untranslated}

-- The storage that create leaves for a table of segments.
abbrev created : ℕ → Entries → Entries
created s m = invalidate 0x20 s 2048 m

created-invalid :
    (s : ℕ) (m : Entries) (i : ℕ) → i < 2048 → segment_invalid (created s m (s + 8 * i)) ≡ true
created-invalid s m i h =
    rw (invalidate-inside 0x20 s 2048 m i h) (segment_invalid-marked (m (s + 8 * i)))

-- Creating an address space, with an aligned table of segments, gives its control register the
-- address and the length of the table; the space is well-formed and translates no address. Without
-- storage for the table there is none.
pub create_lem :
    (s : ℕ) (m : Entries)
    → s % 4096 ≡ 0
    → (create none m ≡ none)
      × (create (some s) m ≡ some (record { cr1 = s + 3; segtab = s }, created s m))
      × WellFormed s (created s m)
      × ((v : ℕ) → virtual_to_real s (created s m) v ≡ 0)
unfolding create
create_lem s m al = (
  refl,
  rw (join_bits 12 s (s / 4096) 3 (omega arith) (omega arith)) refl,
  record {
    present = λ i h good. cc (created-invalid s m i h, good);
    distinct = λ i j hi hj ne good _. cc (created-invalid s m i hi, good);
  },
  λ v. untranslated s (created s m) v (created-invalid s m (segment_idx v) (segment_idx-lt s v)),
)

map_new-sibling :
    (segtab t : ℕ) (m : Entries) (v p flags k : ℕ)
    → IsFree segtab m t
    → k < 256
    → k ≢ page_idx v
    → (map_new segtab (some t) v p flags m).1 (t + 8 * k) ≡ bit_or (m (t + 8 * k)) 0x400
unfolding map_new
map_new-sibling segtab t m v p flags k free lt other =
    let entry = segtab + 8 * segment_idx v in
    let apart : t + 8 * k ≢ segtab + 8 * segment_idx v =
      λ q. ground (arith, free.table, segment_idx-lt segtab v) in
    set_page-other segtab (write (invalidate 0x400 t 256 m) entry t) v p flags t (t + 8 * k)
      (λ q. other (omega arith))
    ∙ write-other (invalidate 0x400 t 256 m) entry t (t + 8 * k) apart
    ∙ invalidate-inside 0x400 t 256 m k lt

-- Where map_page takes a new table, every other page of the segment is translated too: to the
-- frame that the storage of the table showed before.
pub map_page-leftover :
    (segtab t : ℕ) (m : Entries) (v p flags w : ℕ)
    → IsFree segtab m t
    → segment_invalid (m (segtab + 8 * segment_idx v)) ≡ true
    → segment_idx w ≡ segment_idx v
    → page_idx w ≢ page_idx v
    → virtual_to_real segtab (map_page segtab (some t) v p flags m).1 w
      ≡ page_origin (m (t + 8 * page_idx w)) + w % 4096
unfolding map_page
map_page-leftover segtab t m v p flags w free bad seg other =
    let s = map_new-Sets segtab m v p flags t free bad in
    let m' = (map_new segtab (some t) v p flags m).1 in
    rw bad (
      translated segtab m' w (rw seg s.mapped) (rw (seg, s.origin) (free.table.0))
      ∙ rw
          (
            seg,
            s.origin,
            map_new-sibling segtab t m v p flags (page_idx w) free (page_idx-lt segtab w) other,
            page_origin-marked (m (t + 8 * page_idx w)),
          )
          refl)
