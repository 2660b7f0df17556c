-- ===== src/Crypto/Block/Loop.antt =====
-- What the block loop leaves in memory, and the round trip of two ciphers that undo one another.
use kinnow_os.Prelude.{
  ℕ, zero, suc, ◌+◌, ◌*◌, ◌/◌, ◌%◌, ◌≤◌, ◌<◌, ◌≡◌, refl, ◌∙◌, ap, ◌⊎◌, Bool, arith,
}
use kinnow_os.Storage.Memory.{Memory, IsBytes}
use kinnow_os.Crypto.Block.{Pair, IsWords, load32, load, store, rounds, each_block}
use kinnow_os.Crypto.Block.Words.{
  load-store_self, load-store_ne, store_outside, load-IsWords, store-IsBytes,
}

-- Both buffers are one, or they do not meet.
abbrev pub Apart : ℕ → ℕ → ℕ → Type 0
Apart out src size = (out ≡ src) ⊎ (out + size ≤ src) ⊎ (src + size ≤ out)

module _ (big : Bool) (cipher : Pair → Pair) where
  pub each_block_outside :
      (m : Memory) (out src i n a : ℕ)
      → (a < out + i) ⊎ (out + i + 8 * n ≤ a)
      → each_block big cipher m out src i n a ≡ m a
  unfolding each_block
  each_block_outside m out src i zero a h = refl
  each_block_outside m out src i (suc n) a h =
      let v = cipher (load big m (src + i)) in
      ground (
        arith,
        each_block_outside (store big m (out + i) v) out src (i + 8) n a,
        store_outside big m (out + i) v a,
      )

  load-each_block_below :
      (m : Memory) (out src i n q : ℕ)
      → q + 8 ≤ out + i
      → load big (each_block big cipher m out src i n) q ≡ load big m q
  unfolding each_block
  load-each_block_below m out src i zero q h = refl
  load-each_block_below m out src i (suc n) q h =
      let v = cipher (load big m (src + i)) in
      ground (
        arith,
        load-each_block_below (store big m (out + i) v) out src (i + 8) n q,
        load-store_ne big m (out + i) q v,
      )

  pub each_block-IsBytes :
      (m : Memory) (out src i n : ℕ) → IsBytes m → IsBytes (each_block big cipher m out src i n)
  unfolding each_block
  each_block-IsBytes m out src i zero h = h
  each_block-IsBytes m out src i (suc n) h =
      let v = cipher (load big m (src + i)) in
      each_block-IsBytes (store big m (out + i) v) out src (i + 8) n
        (store-IsBytes big m (out + i) v h)

  -- Block `b` behind the index becomes the cipher of the block of the source at that place.
  pub load-each_block :
      ((v : Pair) → IsWords v → IsWords (cipher v))
      → (m : Memory) (out src i n b : ℕ) → IsBytes m
      → Apart out src (i + 8 * n)
      → b < n
      → load big (each_block big cipher m out src i n) (out + i + 8 * b)
        ≡ cipher (load big m (src + i + 8 * b))
  unfolding each_block
  load-each_block words m out src i zero b bytes apart h = absurd (omega arith)
  load-each_block words m out src i (suc n) zero bytes apart h =
      let v = cipher (load big m (src + i)) in
      ground (
        arith,
        load-each_block_below (store big m (out + i) v) out src (i + 8) n (out + i),
        load-store_self big m (out + i) v (words _ (load-IsWords big m (src + i) bytes)),
      )
  load-each_block words m out src i (suc n) (suc b) bytes apart h =
      let v = cipher (load big m (src + i)) in
      ground (
        arith,
        load-each_block words (store big m (out + i) v) out src (i + 8) n b
            (store-IsBytes big m (out + i) v bytes) (omega arith) (omega arith),
        load-store_ne big m (out + i) (src + i + 8 * suc b) v,
      )

-- Equal words stand for equal bytes.
bytes_of_load32 :
    (big : Bool) (m m' : Memory) (p q : ℕ)
    → IsBytes m
    → IsBytes m'
    → load32 big m' p ≡ load32 big m q
    → (m' p ≡ m q) × (m' (p + 1) ≡ m (q + 1)) × (m' (p + 2) ≡ m (q + 2)) × (m' (p + 3) ≡ m (q + 3))
unfolding load32
bytes_of_load32 big m m' p q h h' e =
    ground (arith, h q, h (q + 1), h (q + 2), h (q + 3), h' p, h' (p + 1), h' (p + 2), h' (p + 3))

below_eight :
    (P : ℕ → Type 0) → P 0 → P 1 → P 2 → P 3 → P 4 → P 5 → P 6 → P 7 → (k : ℕ) → k < 8 → P k
below_eight P a b c d e f g h zero lt = a
below_eight P a b c d e f g h (suc zero) lt = b
below_eight P a b c d e f g h (suc (suc zero)) lt = c
below_eight P a b c d e f g h (suc (suc (suc zero))) lt = d
below_eight P a b c d e f g h (suc (suc (suc (suc zero)))) lt = e
below_eight P a b c d e f g h (suc (suc (suc (suc (suc zero))))) lt = f
below_eight P a b c d e f g h (suc (suc (suc (suc (suc (suc zero)))))) lt = g
below_eight P a b c d e f g h (suc (suc (suc (suc (suc (suc (suc zero))))))) lt = h
below_eight P a b c d e f g h (suc (suc (suc (suc (suc (suc (suc (suc k)))))))) lt =
    absurd (omega arith)

bytes_of_load :
    (big : Bool) (m m' : Memory) (p q k : ℕ)
    → IsBytes m
    → IsBytes m'
    → k < 8
    → load big m' p ≡ load big m q
    → m' (p + k) ≡ m (q + k)
unfolding load
bytes_of_load big m m' p q k h h' lt e =
    let lo = bytes_of_load32 big m m' p q h h' (ap (λ (v : Pair). v.fst) e) in
    let hi = bytes_of_load32 big m m' (p + 4) (q + 4) h h' (ap (λ (v : Pair). v.snd) e) in
    below_eight (λ k. m' (p + k) ≡ m (q + k)) (ground arith) (ground arith) (ground arith)
      (ground arith) (ground arith) (ground arith) (ground arith) (ground arith) k lt

-- Two ciphers of which the second undoes the first on pairs of words, run over the same length:
-- the second loop gives the bytes of the source back.
module _ (big : Bool) (cipher decipher : Pair → Pair)
    (words : (v : Pair) → IsWords v → IsWords (cipher v))
    (words' : (v : Pair) → IsWords v → IsWords (decipher v))
    (undo : (v : Pair) → IsWords v → decipher (cipher v) ≡ v) where
  pub each_block_undo :
      (m : Memory) (src out back len j : ℕ)
      → IsBytes m
      → Apart out src (8 * rounds len)
      → Apart back out (8 * rounds len)
      → j < len
      → each_block big decipher
          (each_block big cipher m out src 0 (rounds len))
          back
          out
          0
          (rounds len)
          (back + j)
        ≡ m (src + j)
  each_block_undo m src out back len j bytes a1 a2 lt =
      let n = rounds len in
      let mid = each_block big cipher m out src 0 n in
      let mid_bytes = each_block-IsBytes big cipher m out src 0 n bytes in
      let last_bytes = each_block-IsBytes big decipher mid back out 0 n mid_bytes in
      let there =
        load-each_block big cipher words m out src 0 n (j / 8) bytes (omega arith) (omega arith) in
      let again =
        load-each_block big decipher words' mid back out 0 n (j / 8) mid_bytes (omega arith)
          (omega arith) in
      let block = undo (load big m (src + 0 + 8 * (j / 8))) (load-IsWords big m _ bytes) in
      let same =
        bytes_of_load big m (each_block big decipher mid back out 0 n) (back + 0 + 8 * (j / 8))
          (src + 0 + 8 * (j / 8)) (j % 8) bytes last_bytes (omega arith)
          (again ∙ ap decipher there ∙ block) in
      ground arith
