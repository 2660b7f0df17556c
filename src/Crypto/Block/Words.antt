-- ===== src/Crypto/Block/Words.antt =====
-- Loading and storing words.
use kinnow_os.Prelude.{ℕ, ◌+◌, ◌^◌, ◌≤◌, ◌<◌, ◌≡◌, ◌⊎◌, Bool, true, false, arith}
use kinnow_os.Storage.Memory.{Memory, IsBytes, write}
use kinnow_os.Crypto.Block.{Pair, IsWords, load32, store32, load, store}

store32_outside :
    (big : Bool) (m : Memory) (p w a : ℕ) → (a < p) ⊎ (p + 4 ≤ a) → store32 big m p w a ≡ m a
unfolding store32 write
store32_outside big m p w a h = ground arith

load32-store32_self :
    (big : Bool) (m : Memory) (p w : ℕ) → w < 2 ^ 32 → load32 big (store32 big m p w) p ≡ w
unfolding load32 store32 write
load32-store32_self true m p w h = ground arith
load32-store32_self false m p w h = ground arith

load32-store32_ne :
    (big : Bool) (m : Memory) (p q w : ℕ)
    → (q + 4 ≤ p) ⊎ (p + 4 ≤ q)
    → load32 big (store32 big m p w) q ≡ load32 big m q
unfolding load32
load32-store32_ne big m p q w h = ground (
  arith,
  store32_outside big m p w q,
  store32_outside big m p w (q + 1),
  store32_outside big m p w (q + 2),
  store32_outside big m p w (q + 3),
)

load32-lt : (big : Bool) (m : Memory) (p : ℕ) → IsBytes m → load32 big m p < 2 ^ 32
unfolding load32
load32-lt big m p h = ground (arith, h p, h (p + 1), h (p + 2), h (p + 3))

store32-IsBytes : (big : Bool) (m : Memory) (p w : ℕ) → IsBytes m → IsBytes (store32 big m p w)
unfolding store32 write
store32-IsBytes big m p w h a = ground (arith, h a)

pub load-store_self :
    (big : Bool) (m : Memory) (p : ℕ) (v : Pair) → IsWords v → load big (store big m p v) p ≡ v
unfolding load store
load-store_self big m p v (h, k) = ground (
  arith,
  load32-store32_ne big (store32 big m p v.fst) (p + 4) p v.snd,
  load32-store32_self big m p v.fst h,
  load32-store32_self big (store32 big m p v.fst) (p + 4) v.snd k,
)

pub load-store_ne :
    (big : Bool) (m : Memory) (p q : ℕ) (v : Pair)
    → (q + 8 ≤ p) ⊎ (p + 8 ≤ q)
    → load big (store big m p v) q ≡ load big m q
unfolding load store
load-store_ne big m p q v h = ground (
  arith,
  load32-store32_ne big (store32 big m p v.fst) (p + 4) q v.snd,
  load32-store32_ne big (store32 big m p v.fst) (p + 4) (q + 4) v.snd,
  load32-store32_ne big m p q v.fst,
  load32-store32_ne big m p (q + 4) v.fst,
)

pub store_outside :
    (big : Bool) (m : Memory) (p : ℕ) (v : Pair) (a : ℕ)
    → (a < p) ⊎ (p + 8 ≤ a)
    → store big m p v a ≡ m a
unfolding store
store_outside big m p v a h = ground (
  arith,
  store32_outside big (store32 big m p v.fst) (p + 4) v.snd a,
  store32_outside big m p v.fst a,
)

pub load-IsWords : (big : Bool) (m : Memory) (p : ℕ) → IsBytes m → IsWords (load big m p)
unfolding load
load-IsWords big m p h = (load32-lt big m p h, load32-lt big m (p + 4) h)

pub store-IsBytes :
    (big : Bool) (m : Memory) (p : ℕ) (v : Pair) → IsBytes m → IsBytes (store big m p v)
unfolding store
store-IsBytes big m p v h = store32-IsBytes big _ _ _ (store32-IsBytes big m p v.fst h)
