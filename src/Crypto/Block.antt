-- ===== src/Crypto/Block.antt =====
-- The loop that the four block functions of kernel/crypto.cxx share: `len` is gone through in
-- steps of `sizeof(uint64_t)`, and each step copies eight bytes out of `data` into a `chunk`,
-- changes the chunk and copies it to `out`. `big` is the byte order of the machine, on which the
-- two halves of a chunk depend.
pub mod Words
pub mod Loop
use kinnow_os.Prelude.{ℕ, zero, suc, ◌+◌, ◌*◌, ◌/◌, ◌%◌, ◌^◌, ◌<◌, Bool, if◌then◌else◌}
use kinnow_os.Storage.Memory.{Memory, write}

-- Two `uint32_t`.
pub record Pair : Type 0 where
  pub fst : ℕ
  pub snd : ℕ

abbrev pub pair : ℕ → ℕ → Pair
pair a b = record { fst = a; snd = b }

abbrev pub IsWords : Pair → Type 0
IsWords v = (v.fst < 2 ^ 32) × (v.snd < 2 ^ 32)

-- The 32-bit word at an address.
unfoldable pub load32 : Bool → Memory → ℕ → ℕ
load32 big m p =
    if big
    then m p * 2 ^ 24 + m (p + 1) * 2 ^ 16 + m (p + 2) * 2 ^ 8 + m (p + 3)
    else m p + m (p + 1) * 2 ^ 8 + m (p + 2) * 2 ^ 16 + m (p + 3) * 2 ^ 24

-- The byte `k` of a word, counted from its lowest.
abbrev pub byte : ℕ → ℕ → ℕ
byte w k = w / 2 ^ (8 * k) % 256

unfoldable pub store32 : Bool → Memory → ℕ → ℕ → Memory
store32 big m p w =
    write
      (write
        (write (write m p (if big then byte w 3 else byte w 0)) (p + 1)
          (if big then byte w 2 else byte w 1))
        (p + 2) (if big then byte w 1 else byte w 2))
      (p + 3) (if big then byte w 0 else byte w 3)

-- The `uint32_t[2]` at an address.
unfoldable pub load : Bool → Memory → ℕ → Pair
unfolding load32
load big m p = pair (load32 big m p) (load32 big m (p + 4))

unfoldable pub store : Bool → Memory → ℕ → Pair → Memory
unfolding store32
store big m p v = store32 big (store32 big m p v.fst) (p + 4) v.snd

-- `for(size_t i = 0; i < len; i += sizeof(uint64_t))` makes this many rounds.
abbrev pub rounds : ℕ → ℕ
rounds len = (len + 7) / 8

-- The loop from index `i` on.
unfoldable pub each_block : Bool → (Pair → Pair) → Memory → ℕ → ℕ → ℕ → ℕ → Memory
each_block big cipher m out data' i zero = m
each_block big cipher m out data' i (suc n) =
    each_block big cipher (store big m (out + i) (cipher (load big m (data' + i)))) out data'
      (i + 8) n
