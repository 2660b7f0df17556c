-- ===== src/Storage/Memory/Move.antt =====
-- What `move` leaves in memory, in each direction.
use kinnow_os.Prelude.{ℕ, zero, suc, ◌+◌, ◌-◌, ◌≤◌, ◌<◌, ◌≡◌, refl, ◌⊎◌, arith, if◌then◌else◌, ltb}
use kinnow_os.Storage.Memory.{Memory, write, copy_down, move}
use kinnow_os.Storage.Memory.Copy.{copy_inside, copy_outside}

-- The downward loop writes the addresses from `dest` down to `dest + 1 - n`.
copy_down_outside :
    (m : Memory) (dest src n a : ℕ)
    → n ≤ dest
    → (dest < a) ⊎ (a + n ≤ dest)
    → copy_down m dest src n a ≡ m a
unfolding copy_down write
copy_down_outside m dest src zero a le h = refl
copy_down_outside m dest src (suc n) a le h =
    ground (arith, copy_down_outside (write m dest (m src)) (dest - 1) (src - 1) n a)

copy_down_inside :
    (m : Memory) (dest src n a : ℕ)
    → n ≤ dest
    → n ≤ src
    → src ≤ dest
    → dest < a + n
    → a ≤ dest
    → copy_down m dest src n a ≡ m (src - (dest - a))
unfolding copy_down write
copy_down_inside m dest src zero a l1 l2 ok h k = absurd (omega arith)
copy_down_inside m dest src (suc n) a l1 l2 ok h k = ground (
  arith,
  copy_down_inside (write m dest (m src)) (dest - 1) (src - 1) n a,
  copy_down_outside (write m dest (m src)) (dest - 1) (src - 1) n a,
)

-- Towards a lower address `move` is the overlapping copy that it means to be: the destination
-- holds the bytes that the source held before, and nothing else changes.
pub move_lower :
    (m : Memory) (dest src n a : ℕ)
    → dest < src
    → move m dest src n a
      ≡ (if ltb a dest then m a else if ltb a (dest + n) then m (src + (a - dest)) else m a)
unfolding move
move_lower m dest src n a h =
    ground (arith, copy_inside m dest src n a, copy_outside m dest src n a)

-- Towards a higher or the same address `move` starts one byte past the end of both ranges: it
-- moves the `n` bytes from `src + 1` to `dest + 1`, so it never writes the first byte of the
-- destination and writes the byte behind its end.
pub move_higher :
    (m : Memory) (dest src n a : ℕ)
    → src ≤ dest
    → move m dest src n a
      ≡ (if ltb dest a then if ltb (dest + n) a then m a else m (src + (a - dest)) else m a)
unfolding move
move_higher m dest src n a h = ground (
  arith,
  copy_down_inside m (dest + n) (src + n) n a,
  copy_down_outside m (dest + n) (src + n) n a,
)
