-- ===== src/Storage/Text.antt =====
-- The namespace `storage_string` of kernel/storage.hxx: texts that end in a zero byte, in a flat
-- byte memory. The loops run until they read that byte, on fuel; `none` means that the fuel ran
-- out. A pointer that a function returns is `none` where the code returns `nullptr`.
pub mod Scan
pub mod Writes
use kinnow_os.Prelude.{
  ℕ, zero, suc, ◌+◌, ◌<◌, ◌≡◌, ◌≢◌, Bool, true, false, ◌&&◌, ◌||◌, not, Option, none, some, ◌==◌,
  if◌then◌else◌,
}
use kinnow_os.Prelude.Int.{ℤ, pos, negsuc, ◌+ℤ◌, sub_ℕ}
use kinnow_os.Storage.Memory.{Memory, write}

-- A text of `n` characters stands at `s`.
pub record IsText (m : Memory) (s n : ℕ) : Type 0 where
  pub ends : m (s + n) ≡ 0
  pub goes_on : (i : ℕ) → i < n → m (s + i) ≢ 0

length_loop : ℕ → Memory → ℕ → ℕ → Option ℕ
length_loop zero m s i = none
length_loop (suc fuel) m s i =
    let rest = length_loop fuel m s (i + 1) in if m (s + i) == 0 then some i else rest

unfoldable pub length : ℕ → Memory → ℕ → Option ℕ
unfolding length_loop
length fuel m s = length_loop fuel m s 0

compare_loop : ℕ → Memory → ℕ → ℕ → ℕ → ℤ → Option ℤ
compare_loop zero m s1 s2 n diff = none
compare_loop (suc fuel) m s1 s2 n diff =
    let rest = compare_loop fuel m (s1 + 1) (s2 + 1) (n + 1) (diff +ℤ sub_ℕ (m s1) (m s2)) in
    if not (n == 0) && (not (m s1 == 0) && not (m s2 == 0))
    then rest
    else some (if m s1 == m s2 then diff else negsuc 0)

-- The counter `n` starts at 0, and the loop tests it first.
unfoldable pub compare : ℕ → Memory → ℕ → ℕ → Option ℤ
unfolding compare_loop
compare fuel m s1 s2 = compare_loop fuel m s1 s2 0 (pos 0)

-- Walks to the first address where `hit` holds, or to the end of the text.
unfoldable pub scan : (ℕ → Bool) → ℕ → Memory → ℕ → Option (Option ℕ)
scan hit zero m s = none
scan hit (suc fuel) m s =
    let rest = scan hit fuel m (s + 1) in
    if m s == 0 then some none else if hit s then some (some s) else rest

unfoldable pub find_char : ℕ → Memory → ℕ → ℕ → Option (Option ℕ)
unfolding scan
find_char fuel m s c = scan (λ a. m a == c) fuel m s

-- The loop over `accept`, from index `i` on.
unfoldable pub is_match : Memory → ℕ → ℕ → ℕ → ℕ → Bool
is_match m c accept i zero = false
is_match m c accept i (suc left) = c == m (accept + i) || is_match m c accept (i + 1) left

unfoldable pub break_p : ℕ → Memory → ℕ → ℕ → Option (Option ℕ)
break_p fuel m s accept = elim (length fuel m accept) [
  | none ↦ none
  | some n ↦ scan (λ a. is_match m (m a) accept 0 n) fuel m s
]

pub span_loop : (ℕ → Bool) → ℕ → Memory → ℕ → ℕ → Option ℕ
span_loop hit zero m s spn = none
span_loop hit (suc fuel) m s spn =
    let rest = span_loop hit fuel m (s + 1) (spn + 1) in
    if m s == 0 then some spn else if hit s then rest else some spn

unfoldable pub span : ℕ → Memory → ℕ → ℕ → Option ℕ
span fuel m s accept = elim (length fuel m accept) [
  | none ↦ none
  | some n ↦ span_loop (λ a. is_match m (m a) accept 0 n) fuel m s 0
]

-- The memory after the call and the pointer that it returns.
unfoldable pub copy : ℕ → Memory → ℕ → ℕ → Option (Memory × ℕ)
copy zero m s1 s2 = none
copy (suc fuel) m s1 s2 =
    let rest = copy fuel (write m s1 (m s2)) (s1 + 1) (s2 + 1) in
    if m s2 == 0 then some (write m s1 0, s1 + 1) else rest

-- The walk to the end of `s1`, then the loop and the end byte of `copy`.
unfoldable pub concat : ℕ → Memory → ℕ → ℕ → Option (Memory × ℕ)
concat fuel m s1 s2 = elim (length fuel m s1) [ none ↦ none | some n ↦ copy fuel m (s1 + n) s2 ]
