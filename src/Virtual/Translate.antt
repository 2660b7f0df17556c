-- ===== src/Virtual/Translate.antt =====
-- Mapping one page: what virtual_to_real gives afterwards for the page and for all others.
use kinnow_os.Prelude.{
  ℕ, ◌+◌, ◌*◌, ◌%◌, ◌^◌, ◌≤◌, ◌<◌, ◌≡◌, ◌≢◌, ◌⊎◌, inl, inr, refl, sym, ◌∙◌, true, false, Option,
  none, some, arith, Bool-cases, ==_ne, ◌==◌,
}
use native.Mathlib.Decide.{dec_lt}
use kinnow_os.Prelude.Int.{pos}
use kinnow_os.Words.{bit_or}
use kinnow_os.Virtual.{
  Entries, segment_origin, segment_invalid, segment_idx, page_idx, invalidate, max_pages, write,
  set_page, map_new, map_old, map_page,
}
use kinnow_os.Virtual.Entries.{
  segment_idx_lem, page_idx_lem, segment_origin_lem, segment_invalid-table, write_self, write-other,
  invalidate-outside,
}

module _ (segtab : ℕ) where
  -- The entry of a segment has a table of pages.
  abbrev pub IsMapped : Entries → ℕ → Type 0
  IsMapped m i = segment_invalid (m (segtab + 8 * i)) ≡ false

  abbrev pub table_of : Entries → ℕ → ℕ
  table_of m i = segment_origin (m (segtab + 8 * i))

  -- A table of pages is apart from the table of segments.
  abbrev pub IsTable : ℕ → Type 0
  IsTable t = (0 < t) × ((t + 2048 ≤ segtab) ⊎ (segtab + 16384 ≤ t))

  -- Each segment has a table of its own.
  pub record WellFormed (m : Entries) : Type 0 where
    pub present : (i : ℕ) → i < 2048 → IsMapped m i → IsTable (table_of m i)
    pub distinct :
        (i j : ℕ)
        → i < 2048
        → j < 2048
        → i ≢ j
        → IsMapped m i
        → IsMapped m j
        → table_of m i ≢ table_of m j

  -- Storage that the allocator may give for a table: below 4 GiB, and used by no segment.
  pub record IsFree (m : Entries) (t : ℕ) : Type 0 where
    pub aligned : t % 2048 ≡ 0
    pub low : t < 2 ^ 32
    pub table : IsTable t
    pub unused : (i : ℕ) → i < 2048 → IsMapped m i → table_of m i ≢ t

  -- Entry `k` of the table `t` of segment `i` is set to `x`, and nothing else that is mapped changes.
  pub record Sets (m m' : Entries) (i k t x : ℕ) : Type 0 where
    pub table : IsTable t
    pub aligned : t % 2048 ≡ 0
    pub unused : (j : ℕ) → j < 2048 → j ≢ i → IsMapped m j → table_of m j ≢ t
    pub mapped : IsMapped m' i
    pub origin : table_of m' i ≡ t
    pub kept : IsMapped m i → table_of m i ≡ t
    pub entry : m' (t + 8 * k) ≡ x
    pub segments : (j : ℕ) → j < 2048 → j ≢ i → m' (segtab + 8 * j) ≡ m (segtab + 8 * j)
    pub pages :
        (t' k' : ℕ)
        → IsTable t'
        → t' % 2048 ≡ 0
        → k' < 256
        → t' ≢ t
        → m' (t' + 8 * k') ≡ m (t' + 8 * k')
    pub siblings : (k' : ℕ) → k' < 256 → k' ≢ k → IsMapped m i → m' (t + 8 * k') ≡ m (t + 8 * k')

  pub aligned-origin : (e : ℕ) → segment_origin e % 2048 ≡ 0
  aligned-origin e = omega (arith, segment_origin_lem e)

  origin-table : (t : ℕ) → t % 2048 ≡ 0 → t < 2 ^ 32 → segment_origin t ≡ t
  origin-table t h l = omega (arith, segment_origin_lem t)

  pub segment_idx-lt : (v : ℕ) → segment_idx v < 2048
  segment_idx-lt v = omega (arith, segment_idx_lem v)

  pub page_idx-lt : (v : ℕ) → page_idx v < 256
  page_idx-lt v = omega (arith, page_idx_lem v)

  module _ (m : Entries) (v p flags : ℕ) where
    pub set_page-other : (t a : ℕ) → a ≢ t + 8 * page_idx v → set_page t v p flags m a ≡ m a
    unfolding set_page
    set_page-other t a h = write-other m (t + 8 * page_idx v) (bit_or p flags) a h

    set_page_self : (t : ℕ) → set_page t v p flags m (t + 8 * page_idx v) ≡ bit_or p flags
    unfolding set_page
    set_page_self t = write_self m (t + 8 * page_idx v) (bit_or p flags)

    -- Setting a page of a table apart from the segments leaves their entries.
    set_page-segment :
        (t j : ℕ)
        → IsTable t
        → j < 2048
        → set_page t v p flags m (segtab + 8 * j) ≡ m (segtab + 8 * j)
    set_page-segment t j it h =
        set_page-other t (segtab + 8 * j) (λ e. ground (arith, page_idx-lt v))

    set_page-page :
        (t t' k' : ℕ)
        → t % 2048 ≡ 0
        → t' % 2048 ≡ 0
        → k' < 256
        → t' ≢ t
        → set_page t v p flags m (t' + 8 * k') ≡ m (t' + 8 * k')
    set_page-page t t' k' h h' lt ne =
        set_page-other t (t' + 8 * k')
          (λ e. ne (let b : page_idx v < 256 = page_idx-lt v in omega arith))

    map_old-Sets :
        (t : ℕ)
        → WellFormed m
        → IsMapped m (segment_idx v)
        → table_of m (segment_idx v) ≡ t
        → Sets m (set_page t v p flags m) (segment_idx v) (page_idx v) t (bit_or p flags)
    map_old-Sets t wf old e =
        let it : IsTable t = rw (← e) (wf.present (segment_idx v) (segment_idx-lt v) old) in
        let aligned : t % 2048 ≡ 0 = rw (← e) (aligned-origin (m (segtab + 8 * segment_idx v))) in
        let same : set_page t v p flags m (segtab + 8 * segment_idx v)
            ≡ m (segtab + 8 * segment_idx v) =
          set_page-segment t (segment_idx v) it (segment_idx-lt v) in
        record {
          table = it;
          aligned = aligned;
          unused = λ j h ne mj q.
              wf.distinct j (segment_idx v) h (segment_idx-lt v) ne mj old (q ∙ sym e);
          mapped = rw same old;
          origin = rw same e;
          kept = λ _. e;
          entry = set_page_self t;
          segments = λ j h ne. set_page-segment t j it h;
          pages = λ t' k' it' al lt ne. set_page-page t t' k' aligned al lt ne;
          siblings = λ k' lt ne o. set_page-other t (t + 8 * k') (λ q. ne (omega arith));
        }

  module _ (m : Entries) (v p flags t : ℕ) (free : IsFree m t) where
    open free use {aligned, low, table}

    -- The storage before the page is set: the table is invalidated and the segment points to it.
    abbrev linked : Entries
    linked = write (invalidate 0x400 t max_pages m) (segtab + 8 * segment_idx v) t

    linked-segment : linked (segtab + 8 * segment_idx v) ≡ t
    linked-segment = write_self _ (segtab + 8 * segment_idx v) t

    linked-outside :
        (a : ℕ) → a ≢ segtab + 8 * segment_idx v → (a < t) ⊎ (t + 2048 ≤ a) → linked a ≡ m a
    linked-outside a ne out =
        write-other _ (segtab + 8 * segment_idx v) t a ne ∙ invalidate-outside 0x400 t 256 m a out

    linked-segments :
        (j : ℕ) → j < 2048 → j ≢ segment_idx v → linked (segtab + 8 * j) ≡ m (segtab + 8 * j)
    linked-segments j h ne =
        linked-outside (segtab + 8 * j) (λ e. ne (omega arith)) (ground (arith, table))

    linked-pages :
        (t' k' : ℕ)
        → IsTable t'
        → t' % 2048 ≡ 0
        → k' < 256
        → t' ≢ t
        → linked (t' + 8 * k') ≡ m (t' + 8 * k')
    linked-pages t' k' it al lt ne =
        linked-outside (t' + 8 * k') (λ e. ground (arith, it, segment_idx-lt v))
          (elim (dec_lt t' t) [ yes below ↦ inl (omega arith) | no above ↦ inr (omega arith) ])

    pub map_new-Sets :
        segment_invalid (m (segtab + 8 * segment_idx v)) ≡ true
        → Sets m
            (map_new segtab (some t) v p flags m).1
            (segment_idx v)
            (page_idx v)
            t
            (bit_or p flags)
    unfolding map_new
    map_new-Sets unmapped =
        let same = λ (j : ℕ) (h : j < 2048). set_page-segment linked v p flags t j table h in
        let here : set_page t v p flags linked (segtab + 8 * segment_idx v) ≡ t =
          same (segment_idx v) (segment_idx-lt v) ∙ linked-segment in
        record {
          table = table;
          aligned = aligned;
          unused = λ j h ne mj. free.unused j h mj;
          mapped = rw here (segment_invalid-table t aligned);
          origin = rw here (origin-table t aligned low);
          kept = λ o. cc (unmapped, o);
          entry = set_page_self linked v p flags t;
          segments = λ j h ne. same j h ∙ linked-segments j h ne;
          pages = λ t' k' it al lt ne.
              set_page-page linked v p flags t t' k' aligned al lt ne
              ∙ linked-pages t' k' it al lt ne;
          siblings = λ k' lt ne o. cc (unmapped, o);
        }

  -- Where the request for a table is answered with one that is free.
  abbrev pub IsReady : Option ℕ → Entries → Type 0
  IsReady none m = Unit {0}
  IsReady (some t) m = IsFree m t

  -- A call that returns 0 sets the page in the table that the segment had, or in the new one.
  pub record SetsPage (fresh : Option ℕ) (m m' : Entries) (i k x : ℕ) : Type 0 where
    pub t : ℕ
    pub sets : Sets m m' i k t x
    pub source : IsMapped m i ⊎ (fresh ≡ some t)

  from_new :
      (fresh : Option ℕ) (m : Entries) (v p flags : ℕ)
      → IsReady fresh m
      → (map_new segtab fresh v p flags m).0 ≡ pos 0
      → segment_invalid (m (segtab + 8 * segment_idx v)) ≡ true
      → SetsPage fresh m
          (map_new segtab fresh v p flags m).1
          (segment_idx v)
          (page_idx v)
          (bit_or p flags)
  unfolding map_new
  from_new none m v p flags ready done bad = cc
  from_new (some t) m v p flags ready done bad = record {
    t = t;
    sets = map_new-Sets m v p flags t ready bad;
    source = inr refl;
  }

  pub map_page-SetsPage :
      (fresh : Option ℕ) (m : Entries) (v p flags : ℕ)
      → WellFormed m
      → IsReady fresh m
      → (map_page segtab fresh v p flags m).0 ≡ pos 0
      → SetsPage fresh m
          (map_page segtab fresh v p flags m).1
          (segment_idx v)
          (page_idx v)
          (bit_or p flags)
  unfolding map_page map_old
  map_page-SetsPage fresh m v p flags wf ready done =
      elim (Bool-cases (segment_invalid (m (segtab + 8 * segment_idx v)))) [
        | inl bad ↦ rw bad (from_new fresh m v p flags ready (rw bad at done) bad)
        | inr good ↦
            let it : IsTable (table_of m (segment_idx v)) =
              wf.present (segment_idx v) (segment_idx-lt v) good in
            let present : (table_of m (segment_idx v) == 0) ≡ false =
              ==_ne _ 0 (λ e. omega arith) in
            rw (good, present)
              record {
                t = table_of m (segment_idx v);
                sets = map_old-Sets m v p flags _ wf good refl;
                source = inl good;
              }
      ]

  -- With a table at hand the call returns 0.
  pub map_page-done :
      (t : ℕ) (m : Entries) (v p flags : ℕ)
      → WellFormed m
      → (map_page segtab (some t) v p flags m).0 ≡ pos 0
  unfolding map_page map_old map_new
  map_page-done t m v p flags wf =
      elim (Bool-cases (segment_invalid (m (segtab + 8 * segment_idx v)))) [
        | inl bad ↦ rw bad
        | inr good ↦
            let it : IsTable (table_of m (segment_idx v)) =
              wf.present (segment_idx v) (segment_idx-lt v) good in
            rw (good, ==_ne (table_of m (segment_idx v)) 0 (λ e. omega arith))
      ]
