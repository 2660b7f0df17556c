-- ===== src/Libio/Strings.antt =====
-- sys/libio/string.inl, over a flat byte memory as the primitives of the kernel, whose loops many of
-- these functions share; a character has no sign. A pointer that a function returns is `none` for
-- NULL. The functions that read to the end of a text run on fuel, `none` where it runs out.
pub mod Compare
pub mod Search
pub mod Bounded
use kinnow_os.Prelude.{
  ℕ, zero, suc, ◌+◌, ◌-◌, ◌%◌, Bool, true, false, not, ◌&&◌, Option, none, some, leb, ltb, ◌==◌,
  if◌then◌else◌,
}
use kinnow_os.Prelude.Int.{ℤ, pos, negsuc, ◌+ℤ◌, sub_ℕ, is_zero}
use kinnow_os.Storage.Memory
use kinnow_os.Storage.Memory.{Memory, write}
use kinnow_os.Storage.Text
use kinnow_os.Storage.Text.{is_match}

-- The assertion on overlapping arguments is left to the caller. The result is the address behind
-- the last byte.
pub memcpy : Memory → ℕ → ℕ → ℕ → Memory × ℕ
unfolding Memory.copy
memcpy m dest src n = (Memory.copy m dest src n, dest + n)

pub memmove : Memory → ℕ → ℕ → ℕ → Memory × ℕ
unfolding Memory.move
memmove m dest src n = (Memory.move m dest src n, if ltb dest src then dest + n else dest)

pub memset : Memory → ℕ → ℕ → ℕ → Memory × ℕ
unfolding Memory.memset
memset m s c n = (Memory.memset m s c n, s)

pub memcmp : Memory → ℕ → ℕ → ℕ → ℤ
unfolding Memory.compare
memcmp m s1 s2 n = Memory.compare m s1 s2 n

unfoldable pub strlen : ℕ → Memory → ℕ → Option ℕ
unfolding Text.length
strlen fuel m s = Text.length fuel m s

-- The count `i` is tested behind the step.
pub strnlen_loop : ℕ → Memory → ℕ → ℕ → ℕ → Option ℕ
strnlen_loop zero m s n i = none
strnlen_loop (suc fuel) m s n i =
    let rest = strnlen_loop fuel m (s + 1) n (i + 1) in
    if m s == 0 then some i else if leb n (i + 1) then some (i + 1) else rest

unfoldable pub strnlen : ℕ → Memory → ℕ → ℕ → Option ℕ
unfolding strnlen_loop
strnlen fuel m s n = strnlen_loop fuel m s n 0

-- The loop of `strcmp` and `strncmp`: where the two pointers, the count and the difference stand when
-- it ends.
pub cmp_loop : Memory → ℕ → ℕ → ℕ → ℤ → ℕ × ℕ × ℕ × ℤ
cmp_loop m s1 s2 zero diff = (s1, s2, 0, diff)
cmp_loop m s1 s2 (suc n) diff =
    let rest = cmp_loop m (s1 + 1) (s2 + 1) n (diff +ℤ sub_ℕ (m s1) (m s2)) in
    if not (m s1 == 0) && not (m s2 == 0) then rest else (s1, s2, suc n, diff)

-- The result of `strcmp`, from the state behind its loop.
abbrev pub cmp_result : Memory → ℕ × ℕ × ℕ × ℤ → ℤ
cmp_result m (p1, p2, n, diff) = if not (m p1 == m p2) then negsuc 0 else diff

unfoldable pub strcmp : ℕ → Memory → ℕ → ℕ → Option ℤ
unfolding strlen cmp_loop
strcmp fuel m s1 s2 = elim (strlen fuel m s1) [
  | none ↦ none
  | some n ↦ some (cmp_result m (cmp_loop m s1 s2 n (pos 0)))
]

pub strncmp : Memory → ℕ → ℕ → ℕ → ℤ
unfolding cmp_loop
strncmp m s1 s2 n =
    let (p1, p2, left, diff) = cmp_loop m s1 s2 n (pos 0) in
    if not (m p1 == m p2) && not (left == 0) then negsuc 0 else diff

pub strchr : ℕ → Memory → ℕ → ℕ → Option (Option ℕ)
unfolding Text.find_char
strchr fuel m s c = Text.find_char fuel m s (c % 256)

pub strrchr_loop : ℕ → Memory → ℕ → ℕ → Option ℕ → Option (Option ℕ)
strrchr_loop zero m s c last = none
strrchr_loop (suc fuel) m s c last =
    let rest = strrchr_loop fuel m (s + 1) c (if m s == c then some s else last) in
    if m s == 0 then some last else rest

unfoldable pub strrchr : ℕ → Memory → ℕ → ℕ → Option (Option ℕ)
unfolding strrchr_loop
strrchr fuel m s c = strrchr_loop fuel m s (c % 256) none

pub strspn : ℕ → Memory → ℕ → ℕ → Option ℕ
unfolding Text.span
strspn fuel m s accept = Text.span fuel m s accept

-- The count grows only at the character that ends the loop.
pub strcspn_loop : (ℕ → Bool) → ℕ → Memory → ℕ → ℕ → Option ℕ
strcspn_loop hit zero m s spn = none
strcspn_loop hit (suc fuel) m s spn =
    let rest = strcspn_loop hit fuel m (s + 1) spn in
    if m s == 0 then some spn else if hit s then some (spn + 1) else rest

unfoldable pub strcspn : ℕ → Memory → ℕ → ℕ → Option ℕ
unfolding strcspn_loop is_match strlen
strcspn fuel m s accept = elim (strlen fuel m accept) [
  | none ↦ none
  | some n ↦ strcspn_loop (λ a. is_match m (m a) accept 0 n) fuel m s 0
]

unfoldable pub strpbrk : ℕ → Memory → ℕ → ℕ → Option (Option ℕ)
unfolding Text.break_p
strpbrk fuel m s accept = Text.break_p fuel m s accept

pub strcpy : ℕ → Memory → ℕ → ℕ → Option (Memory × ℕ)
unfolding Text.copy
strcpy fuel m s1 s2 = Text.copy fuel m s1 s2

unfoldable pub strncpy : Memory → ℕ → ℕ → ℕ → Memory × ℕ
unfolding write
strncpy m s1 s2 zero = (write m s1 0, s1 + 1)
strncpy m s1 s2 (suc n) =
    let rest = strncpy (write m s1 (m s2)) (s1 + 1) (s2 + 1) n in
    if m s2 == 0 then (write m s1 0, s1 + 1) else rest

pub strcat : ℕ → Memory → ℕ → ℕ → Option (Memory × ℕ)
unfolding Text.concat
strcat fuel m s1 s2 = Text.concat fuel m s1 s2

-- The walk to the end of `s1`, then the loop and the end byte of `strncpy`.
unfoldable pub strncat : ℕ → Memory → ℕ → ℕ → ℕ → Option (Memory × ℕ)
unfolding strlen strncpy
strncat fuel m s1 s2 n = elim (strlen fuel m s1) [
  | none ↦ none
  | some k ↦ some (strncpy m (s1 + k) s2 n)
]

pub strstr_loop : ℕ → Memory → ℕ → ℕ → ℕ → Option (Option ℕ)
unfolding strncmp
strstr_loop zero m haystack needle needle_len = none
strstr_loop (suc fuel) m haystack needle needle_len =
    let rest = strstr_loop fuel m (haystack + 1) needle needle_len in
    if m haystack == 0
    then some none
    else if m haystack == m needle && is_zero (strncmp m haystack needle needle_len)
    then some (some haystack)
    else rest

unfoldable pub strstr : ℕ → Memory → ℕ → ℕ → Option (Option ℕ)
unfolding strlen strstr_loop
strstr fuel m haystack needle = elim (strlen fuel m needle) [
  | none ↦ none
  | some n ↦ strstr_loop fuel m haystack needle n
]
