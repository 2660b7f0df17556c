-- ===== src/Storage/Memory/Copy.antt =====
-- What `copy` and `fill` leave in memory.
use kinnow_os.Prelude.{ℕ, zero, suc, ◌+◌, ◌-◌, ◌≤◌, ◌<◌, ◌≡◌, refl, ◌⊎◌, arith}
use kinnow_os.Storage.Memory.{Memory, write, copy, fill}

-- The two ranges of `n` bytes do not meet, or the copy goes towards lower addresses.
abbrev pub CanCopy : ℕ → ℕ → ℕ → Type 0
CanCopy dest src n = (dest ≤ src) ⊎ (src + n ≤ dest)

pub write_self : (m : Memory) (p v : ℕ) → write m p v p ≡ v
unfolding write
write_self m p v = ground arith

-- Outside the destination nothing changes.
pub copy_outside :
    (m : Memory) (dest src n a : ℕ) → (a < dest) ⊎ (dest + n ≤ a) → copy m dest src n a ≡ m a
unfolding copy write
copy_outside m dest src zero a h = refl
copy_outside m dest src (suc n) a h =
    ground (arith, copy_outside (write m dest (m src)) (dest + 1) (src + 1) n a)

-- The destination holds the bytes that the source held before the call.
pub copy_inside :
    (m : Memory) (dest src n a : ℕ)
    → CanCopy dest src n
    → dest ≤ a
    → a < dest + n
    → copy m dest src n a ≡ m (src + (a - dest))
unfolding copy write
copy_inside m dest src zero a ok h k = absurd (omega arith)
copy_inside m dest src (suc n) a ok h k = ground (
  arith,
  copy_inside (write m dest (m src)) (dest + 1) (src + 1) n a,
  copy_outside (write m dest (m src)) (dest + 1) (src + 1) n a,
)

pub fill_outside : (m : Memory) (s c n a : ℕ) → (a < s) ⊎ (s + n ≤ a) → fill m s c n a ≡ m a
unfolding fill write
fill_outside m s c zero a h = refl
fill_outside m s c (suc n) a h = ground (arith, fill_outside (write m s c) (s + 1) c n a)

pub fill_inside : (m : Memory) (s c n a : ℕ) → s ≤ a → a < s + n → fill m s c n a ≡ c
unfolding fill write
fill_inside m s c zero a h k = absurd (omega arith)
fill_inside m s c (suc n) a h k =
    ground
      (arith, fill_inside (write m s c) (s + 1) c n a, fill_outside (write m s c) (s + 1) c n a)
