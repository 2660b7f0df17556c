-- ===== src/Storage/Text/Scan.antt =====
-- The functions that only read.
use kinnow_os.Prelude.{
  ℕ, zero, suc, ◌+◌, ◌-◌, ◌<◌, ◌≤◌, ◌≡◌, ◌≢◌, refl, Bool, true, false, Option, none, some, arith,
  ◌==◌, if◌then◌else◌, Bool-cases, ◌⊎◌, inl, inr, ◌↔◌, sym, ap, ◌∙◌,
}
use native.Mathlib.Nat.{zero-add}
use native.Mathlib.Decide.{ℕ_discrete}
use kinnow_os.Prelude.Int.{pos, negsuc}
use kinnow_os.Storage.Memory.{Memory}
use kinnow_os.Storage.Text.{
  IsText, length_loop, length, compare, scan, find_char, is_match, break_p, span_loop, span,
}

module _ (m : Memory) where
  length_loop_lem :
      (fuel s n i : ℕ) → IsText m s n → i ≤ n → n < i + fuel → length_loop fuel m s i ≡ some n
  unfolding length_loop
  length_loop_lem zero s n i t le h = absurd (omega arith)
  length_loop_lem (suc fuel) s n i t le h =
      ground (arith, t.ends, t.goes_on i, length_loop_lem fuel s n (i + 1) t)

  -- With fuel for its characters and its end, `length` returns the length of a text.
  pub length_lem : (fuel s n : ℕ) → IsText m s n → n < fuel → length fuel m s ≡ some n
  unfolding length
  length_lem fuel s n t h = length_loop_lem fuel s n 0 t (omega arith) (omega arith)

  -- `compare` looks at the first characters alone: it returns 0 for any two texts that begin
  -- alike, and -1 for any others, never another value.
  pub compare_lem :
      (fuel s1 s2 : ℕ)
      → compare (suc fuel) m s1 s2 ≡ some (if m s1 == m s2 then pos 0 else negsuc 0)
  unfolding compare
  compare_lem fuel s1 s2 = refl

  -- The first address from `s` on, before `s + n`, where `hit` holds; `none` if there is none.
  pub IsFirst : (ℕ → Bool) → ℕ → ℕ → Option ℕ → Type 0
  IsFirst hit s n none = (a : ℕ) → s ≤ a → a < s + n → hit a ≡ false
  IsFirst hit s n (some p) =
      (s ≤ p) × (p < s + n) × (hit p ≡ true) × ((a : ℕ) → s ≤ a → a < p → hit a ≡ false)

  pub IsText-tail : {s n : ℕ} → IsText m s (suc n) → IsText m (s + 1) n
  IsText-tail {s} {n} t = record {
    ends = ground (arith, t.ends);
    goes_on = λ i h. ground (arith, t.goes_on (suc i));
  }

  IsFirst-cons :
      (hit : ℕ → Bool) (s n : ℕ) (r : Option ℕ)
      → hit s ≡ false
      → IsFirst hit (s + 1) n r
      → IsFirst hit s (suc n) r
  unfolding IsFirst
  IsFirst-cons hit s n none e h = λ a le lt. ground (arith, h a)
  IsFirst-cons hit s n (some p) e (le, lt, at, before) =
      (omega arith, omega arith, at, λ a l k. ground (arith, before a))

  scan-IsFirst :
      (hit : ℕ → Bool) (fuel s n : ℕ)
      → IsText m s n
      → n < fuel
      → (r : Option ℕ) × (scan hit fuel m s ≡ some r) × IsFirst hit s n r
  unfolding scan IsFirst
  scan-IsFirst hit zero s n t h = absurd (omega arith)
  scan-IsFirst hit (suc fuel) s zero t h =
      (none, ground (arith, t.ends), λ a le lt. absurd (omega arith))
  scan-IsFirst hit (suc fuel) s (suc n) t h =
      let more : (m s == 0) ≡ false = ground (arith, t.goes_on 0) in
      elim (Bool-cases (hit s)) [
        | inl e ↦
            (some s, rw (more, e), (omega arith, omega arith, e, λ a le lt. absurd (omega arith)))
        | inr e ↦
            let (r, run, first) = scan-IsFirst hit fuel (s + 1) n (IsText-tail t) (omega arith) in
            (r, rw (more, e) run, IsFirst-cons hit s n r e first)
      ]

  is_match_loop_iff :
      (c accept i left : ℕ)
      → (is_match m c accept i left ≡ true)
        ↔ ((k : ℕ) × (i ≤ k) × (k < i + left) × (m (accept + k) ≡ c))
  unfolding is_match
  is_match_loop_iff c accept i zero = (λ e. cc, λ (k, le, lt, e). absurd (omega arith))
  is_match_loop_iff c accept i (suc left) = elim (ℕ_discrete c (m (accept + i))) [
    | yes e ↦ (λ h. (i, omega arith, omega arith, sym e), λ h. ground (arith, e))
    | no e ↦ (
      λ h.
          let (k, le, lt, at) = (is_match_loop_iff c accept (i + 1) left).0 (ground (arith, e)) in
          (k, omega arith, omega arith, at),
      λ (k, le, lt, at).
          let ne : k ≢ i = λ same. e (sym at ∙ ap (λ (x : ℕ). m (accept + x)) same) in
          ground (
            arith,
            e,
            (is_match_loop_iff c accept (i + 1) left).1 (k, omega arith, omega arith, at),
          ),
    )
  ]

  -- The character at `a` is one of the `k` characters at `accept`.
  pub IsOneOf : ℕ → ℕ → ℕ → Type 0
  IsOneOf accept k a = (i : ℕ) × (i < k) × (m (accept + i) ≡ m a)

  is_match_iff : (accept k a : ℕ) → (is_match m (m a) accept 0 k ≡ true) ↔ IsOneOf accept k a
  unfolding IsOneOf
  is_match_iff accept k a =
      let (to, from) = is_match_loop_iff (m a) accept 0 k in
      (
        λ h. let (i, le, lt, e) = to h in (i, omega arith, e),
        λ (i, lt, e). from (i, omega arith, omega arith, e),
      )

  -- A search result: the first address of the text whose character is one of the accepted, if
  -- there is one.
  pub IsFirstOf : ℕ → ℕ → ℕ → ℕ → Option ℕ → Type 0
  IsFirstOf accept k s n none = (a : ℕ) → s ≤ a → a < s + n → ¬ IsOneOf accept k a
  IsFirstOf accept k s n (some p) =
      (s ≤ p) × (p < s + n) × IsOneOf accept k p × ((a : ℕ) → s ≤ a → a < p → ¬ IsOneOf accept k a)

  not_hit : (accept k a : ℕ) → is_match m (m a) accept 0 k ≡ false → ¬ IsOneOf accept k a
  not_hit accept k a e one = cc ((is_match_iff accept k a).1 one)

  IsFirst-IsFirstOf :
      (accept k s n : ℕ) (r : Option ℕ)
      → IsFirst (λ a. is_match m (m a) accept 0 k) s n r
      → IsFirstOf accept k s n r
  unfolding IsFirst IsFirstOf
  IsFirst-IsFirstOf accept k s n none h = λ a le lt. not_hit accept k a (h a le lt)
  IsFirst-IsFirstOf accept k s n (some p) (le, lt, at, before) =
      (le, lt, (is_match_iff accept k p).0 at, λ a l h. not_hit accept k a (before a l h))

  -- With fuel for both texts, `break_p` returns the first character of the text at `s` that is
  -- one of those at `accept`, and `nullptr` exactly if there is none.
  pub break_p-IsFirstOf :
      (fuel s n accept k : ℕ)
      → IsText m s n
      → IsText m accept k
      → n < fuel
      → k < fuel
      → (r : Option ℕ) × (break_p fuel m s accept ≡ some r) × IsFirstOf accept k s n r
  unfolding break_p
  break_p-IsFirstOf fuel s n accept k t ta h ha =
      let (r, run, first) = scan-IsFirst (λ a. is_match m (m a) accept 0 k) fuel s n t h in
      (r, rw (length_lem fuel accept k ta ha, break_p) run, IsFirst-IsFirstOf accept k s n r first)

  -- `find_char` returns the first place of a character that is not the end byte, and `nullptr`
  -- exactly if the text does not have it.
  pub find_char-IsFirst :
      (fuel s n c : ℕ)
      → IsText m s n
      → n < fuel
      → (r : Option ℕ) × (find_char fuel m s c ≡ some r) × IsFirst (λ a. m a == c) s n r
  unfolding find_char
  find_char-IsFirst fuel s n c t h = scan-IsFirst (λ a. m a == c) fuel s n t h

  IsFirst-absent :
      (s n c : ℕ) (r : Option ℕ)
      → ((i : ℕ) → i < n → m (s + i) ≢ c)
      → IsFirst (λ a. m a == c) s n r
      → r ≡ none
  unfolding IsFirst
  IsFirst-absent s n c none absent h = refl
  IsFirst-absent s n c (some p) absent (le, lt, at, before) =
      let place : s + (p - s) ≡ p = omega arith in
      let char : m p ≡ c = ground (arith, at) in
      absurd (absent (p - s) (omega arith) (ap m place ∙ char))

  -- `find_char` of a character that the text does not have.
  pub find_char-absent :
      (fuel s n c : ℕ)
      → IsText m s n
      → n < fuel
      → ((i : ℕ) → i < n → m (s + i) ≢ c)
      → find_char fuel m s c ≡ some none
  find_char-absent fuel s n c t h absent =
      let (r, run, first) = find_char-IsFirst fuel s n c t h in
      run ∙ ap some (IsFirst-absent s n c r absent first)

  scan-at :
      (hit : ℕ → Bool) (fuel s n k : ℕ)
      → IsText m s n
      → n < fuel
      → k < n
      → hit (s + k) ≡ true
      → ((i : ℕ) → i < k → hit (s + i) ≡ false)
      → scan hit fuel m s ≡ some (some (s + k))
  unfolding scan
  scan-at hit zero s n k t h lt at before = absurd (omega arith)
  scan-at hit (suc fuel) s zero k t h lt at before = absurd (omega arith)
  scan-at hit (suc fuel) s (suc n) zero t h lt at before = ground (arith, t.goes_on 0, at)
  scan-at hit (suc fuel) s (suc n) (suc k) t h lt at before =
      let shift : s + 1 + k ≡ s + suc k = omega arith in
      let start : s + 0 ≡ s = omega arith in
      let not_here : hit s ≡ false = rw start at (before 0 (omega arith)) in
      let goes_on : (m s == 0) ≡ false = ground (arith, t.goes_on 0) in
      let later =
        scan-at hit fuel (s + 1) n k (IsText-tail t) (omega arith) (omega arith) (rw shift at)
          (λ i b.
            let place : s + suc i ≡ s + 1 + i = omega arith in
            rw place at (before (suc i) (omega arith))) in
      rw (goes_on, not_here) (rw shift at later)

  -- `find_char` of a character that the text has at the index `k` first.
  pub find_char-at :
      (fuel s n c k : ℕ)
      → IsText m s n
      → n < fuel
      → k < n
      → m (s + k) ≡ c
      → ((i : ℕ) → i < k → m (s + i) ≢ c)
      → find_char fuel m s c ≡ some (some (s + k))
  unfolding find_char
  find_char-at fuel s n c k t h lt at before =
      scan-at (λ a. m a == c) fuel s n k t h lt (ground (arith, at))
        (λ i b. ground (arith, before i b))

  -- A count of leading characters of the text that are all among the accepted, and behind which
  -- the text ends or goes on with another character.
  pub record IsSpan (accept k s n r : ℕ) : Type 0 where
    pub within : r ≤ n
    pub all_in : (a : ℕ) → s ≤ a → a < s + r → IsOneOf accept k a
    pub stops : (r ≡ n) ⊎ (¬ IsOneOf accept k (s + r))

  span_loop_lem :
      (fuel s n accept k spn : ℕ)
      → IsText m s n
      → n < fuel
      → (r : ℕ) × (span_loop (λ a. is_match m (m a) accept 0 k) fuel m s spn ≡ some (spn + r))
        × IsSpan accept k s n r
  unfolding span_loop
  span_loop_lem zero s n accept k spn t h = absurd (omega arith)
  span_loop_lem (suc fuel) s zero accept k spn t h = (
    0,
    ground (arith, t.ends),
    record { within = omega arith; all_in = λ a le lt. absurd (omega arith); stops = inl refl },
  )
  span_loop_lem (suc fuel) s (suc n) accept k spn t h =
      let more : (m s == 0) ≡ false = ground (arith, t.goes_on 0) in
      elim (Bool-cases (is_match m (m s) accept 0 k)) [
        | inl e ↦
            let (r, run, is) =
              span_loop_lem fuel (s + 1) n accept k (spn + 1) (IsText-tail t) (omega arith) in
            let sum : spn + 1 + r ≡ spn + suc r = omega arith in
            let next : s + 1 + r ≡ s + suc r = omega arith in
            (
              suc r,
              rw (more, e) (rw sum at run),
              record {
                within = ground (arith, is.within);
                all_in = λ a le lt. elim (ℕ_discrete a s) [
                  | yes same ↦ rw same ((is_match_iff accept k s).0 e)
                  | no ne ↦ is.all_in a (omega arith) (omega arith)
                ];
                stops = elim is.stops [
                  | inl all ↦ inl (omega arith)
                  | inr out ↦ inr (rw next at out)
                ];
              },
            )
        | inr e ↦
            let here : s + 0 ≡ s = omega arith in
            (
              0,
              ground (arith, e, more),
              record {
                within = omega arith;
                all_in = λ a le lt. absurd (omega arith);
                stops = inr (rw here (not_hit accept k s e));
              },
            )
      ]

  -- With fuel for both texts, `span` counts the leading characters of the text at `s` that are
  -- among those at `accept`.
  pub span-IsSpan :
      (fuel s n accept k : ℕ)
      → IsText m s n
      → IsText m accept k
      → n < fuel
      → k < fuel
      → (r : ℕ) × (span fuel m s accept ≡ some r) × IsSpan accept k s n r
  unfolding span
  span-IsSpan fuel s n accept k t ta h ha =
      let (r, run, is) = span_loop_lem fuel s n accept k 0 t h in
      (r, rw (length_lem fuel accept k ta ha, span) (rw zero-add at run), is)
