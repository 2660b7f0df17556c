-- ===== src/Storage/Memory.antt =====
-- The raw memory primitives of kernel/storage.hxx and kernel/storage.cxx over a flat byte memory:
-- a pointer is an address, and addresses do not wrap. The assertion in `copy` that the arguments
-- do not overlap is compiled out of a release build and is left to the callers.
pub mod Copy
pub mod Move
pub mod Compare
use kinnow_os.Prelude.{ℕ, zero, suc, ◌+◌, ◌-◌, ◌%◌, ◌^◌, ◌<◌, ltb, ◌==◌, if◌then◌else◌}
use kinnow_os.Prelude.Int.{ℤ, pos, ◌+ℤ◌, sub_ℕ, pos_part, neg_part}

abbrev pub Memory : Type 0
Memory = ℕ → ℕ

abbrev pub IsBytes : Memory → Type 0
IsBytes m = (a : ℕ) → m a < 256

-- `*p = v`
unfoldable pub write : Memory → ℕ → ℕ → Memory
write m p v a = if a == p then v else m a

-- The loop of `storage::copy`, and of `memcpy`.
unfoldable pub copy : Memory → ℕ → ℕ → ℕ → Memory
copy m dest src zero = m
copy m dest src (suc n) = copy (write m dest (m src)) (dest + 1) (src + 1) n

-- The loop of `storage::move` that goes down.
unfoldable pub copy_down : Memory → ℕ → ℕ → ℕ → Memory
copy_down m dest src zero = m
copy_down m dest src (suc n) = copy_down (write m dest (m src)) (dest - 1) (src - 1) n

unfoldable pub move : Memory → ℕ → ℕ → ℕ → Memory
move m dest src n = if ltb dest src then copy m dest src n else copy_down m (dest + n) (src + n) n

-- The loop of `storage::fill`, and of `memset`, with the fill byte `c` already cut to eight bits.
unfoldable pub fill : Memory → ℕ → ℕ → ℕ → Memory
fill m s c zero = m
fill m s c (suc n) = fill (write m s c) (s + 1) c n

-- `static_cast<uint8_t>(c)`, then the loop.
unfoldable pub memset : Memory → ℕ → ℕ → ℕ → Memory
memset m ptr c size = fill m ptr (c % 256) size

unfoldable pub compare_loop : Memory → ℕ → ℕ → ℕ → ℤ → ℤ
compare_loop m s1 s2 zero diff = diff
compare_loop m s1 s2 (suc n) diff = compare_loop m (s1 + 1) (s2 + 1) n (diff +ℤ sub_ℕ (m s1) (m s2))

-- A number as `int`, which wraps around.
unfoldable pub wrap_int : ℤ → ℤ
wrap_int z =
    sub_ℕ ((pos_part z % 2 ^ 32 + (2 ^ 32 - neg_part z % 2 ^ 32) + 2 ^ 31) % 2 ^ 32) (2 ^ 31)

-- `storage::compare`. The sum is wrapped at its end, which comes to the same as at every step: past
-- the range of `int` the code adds as the machine does.
unfoldable pub compare : Memory → ℕ → ℕ → ℕ → ℤ
unfolding compare_loop
compare m s1 s2 n = wrap_int (compare_loop m s1 s2 n (pos 0))
