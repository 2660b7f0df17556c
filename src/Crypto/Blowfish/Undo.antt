-- ===== src/Crypto/Blowfish/Undo.antt =====
-- `decrypt` undoes `encrypt`, whatever the P-array and the S-boxes hold.
use kinnow_os.Prelude.{
  ℕ, zero, suc, ◌+◌, ◌-◌, ◌*◌, ◌^◌, ◌<◌, ◌≡◌, refl, ◌∙◌, ap, Bool, true, false, arith,
}
use native.Mathlib.Nat.{add-zero}
use kinnow_os.Words.{bit_xor, bit_xor_twice, bit_xor_twice_left, bit_xor_assoc, bit_xor-lt}
use kinnow_os.Storage.Memory.{Memory, IsBytes}
use kinnow_os.Crypto.Block.{Pair, pair, IsWords, rounds}
use kinnow_os.Crypto.Block.Loop.{Apart, each_block_undo}
use kinnow_os.Crypto.Blowfish.{
  halves, encrypt_f, feistel, encrypt_rounds, decrypt_rounds, encrypt_v, decrypt_v, encrypt,
  decrypt,
}

module _ (P : ℕ → ℕ) (S : ℕ → ℕ → ℕ) where
  -- The halves before round `k`, crossed over and masked with the keys of rounds `k + 1` and `k`.
  abbrev masked : ℕ → Pair → Pair
  masked k v = pair (bit_xor v.snd (P (k + 1))) (bit_xor v.fst (P k))

  encrypt_rounds-last :
      (n r : ℕ) (v : Pair)
      → encrypt_rounds P S (suc n) r v ≡ feistel P S (r + n) (encrypt_rounds P S n r v)
  unfolding encrypt_rounds
  encrypt_rounds-last zero r v = rw add-zero
  encrypt_rounds-last (suc n) r v =
      encrypt_rounds-last n (r + 1) (feistel P S r v)
      ∙ ap (λ k. feistel P S k (encrypt_rounds P S n (r + 1) (feistel P S r v))) (omega arith)

  feistel_undo :
      (k : ℕ) (v : Pair) → feistel P S (k + 1 + 1) (masked (k + 1) (feistel P S k v)) ≡ masked k v
  unfolding feistel
  feistel_undo k v =
      let half = bit_xor v.fst (P k) in
      rw (
        bit_xor_twice half (P (k + 1 + 1)),
        bit_xor_assoc (encrypt_f S half) v.snd (P (k + 1)),
        bit_xor_twice_left (bit_xor v.snd (P (k + 1))) (encrypt_f S half),
      )

  decrypt_rounds_undo :
      (n r : ℕ) (v : Pair)
      → r ≡ n + 1
      → decrypt_rounds P S n r (masked n (encrypt_rounds P S n 0 v)) ≡ masked 0 v
  unfolding decrypt_rounds
  decrypt_rounds_undo zero r v e = unfold encrypt_rounds in refl
  decrypt_rounds_undo (suc n) r v e =
      let before = encrypt_rounds P S n 0 v in
      let r_eq : r ≡ n + 1 + 1 = omega arith in
      let n_eq : suc n ≡ n + 1 = omega arith in
      let zero_eq : 0 + n ≡ n = omega arith in
      let back : feistel P S r (masked (suc n) (encrypt_rounds P S (suc n) 0 v)) ≡ masked n before =
        rw (encrypt_rounds-last n 0 v, zero_eq, r_eq, n_eq) (feistel_undo n before) in
      rw back (decrypt_rounds_undo n (r - 1) v (omega arith))

  decrypt_v-encrypt_v : (v : Pair) → decrypt_v P S (encrypt_v P S v) ≡ v
  unfolding encrypt_v decrypt_v
  decrypt_v-encrypt_v v =
      rw (
        decrypt_rounds_undo 16 17 v refl,
        bit_xor_twice v.fst (P 0),
        bit_xor_twice v.snd (P (0 + 1)),
      )

  module _ (P_words : (r : ℕ) → P r < 2 ^ 32) where
    feistel-IsWords : (r : ℕ) (v : Pair) → IsWords v → IsWords (feistel P S r v)
    unfolding feistel encrypt_f
    feistel-IsWords r v h = (bit_xor-lt 32 _ _ (omega arith) h.1, bit_xor-lt 32 _ _ h.0 (P_words r))

    encrypt_rounds-IsWords : (n r : ℕ) (v : Pair) → IsWords v → IsWords (encrypt_rounds P S n r v)
    unfolding encrypt_rounds
    encrypt_rounds-IsWords zero r v h = h
    encrypt_rounds-IsWords (suc n) r v h =
        encrypt_rounds-IsWords n (r + 1) (feistel P S r v) (feistel-IsWords r v h)

    decrypt_rounds-IsWords : (n r : ℕ) (v : Pair) → IsWords v → IsWords (decrypt_rounds P S n r v)
    unfolding decrypt_rounds
    decrypt_rounds-IsWords zero r v h = h
    decrypt_rounds-IsWords (suc n) r v h =
        decrypt_rounds-IsWords n (r - 1) (feistel P S r v) (feistel-IsWords r v h)

    pub encrypt_v-IsWords : (v : Pair) → IsWords v → IsWords (encrypt_v P S v)
    unfolding encrypt_v
    encrypt_v-IsWords v h =
        let w = encrypt_rounds-IsWords 16 0 v h in
        (bit_xor-lt 32 _ _ w.1 (P_words 17), bit_xor-lt 32 _ _ w.0 (P_words 16))

    decrypt_v-IsWords : (v : Pair) → IsWords v → IsWords (decrypt_v P S v)
    unfolding decrypt_v
    decrypt_v-IsWords v h =
        let w = decrypt_rounds-IsWords 16 17 v h in
        (bit_xor-lt 32 _ _ w.1 (P_words 0), bit_xor-lt 32 _ _ w.0 (P_words 1))

halves-halves : (big : Bool) (v : Pair) → halves big (halves big v) ≡ v
unfolding halves
halves-halves true v = refl
halves-halves false v = refl

halves-IsWords : (big : Bool) (v : Pair) → IsWords v → IsWords (halves big v)
unfolding halves
halves-IsWords true v h = h
halves-IsWords false v h = (h.1, h.0)

-- Decrypting an encrypted buffer with the same P-array and S-boxes gives its bytes back, whatever
-- the S-boxes hold, on a machine of either byte order, for every length, if the buffers of a call
-- are the same or do not meet over the length rounded up to whole blocks.
pub decrypt-encrypt_boxes :
    (P : ℕ → ℕ) (S : ℕ → ℕ → ℕ) (big : Bool) (m : Memory) (src out back len j : ℕ)
    → ((r : ℕ) → P r < 2 ^ 32)
    → IsBytes m
    → Apart out src (8 * rounds len)
    → Apart back out (8 * rounds len)
    → j < len
    → decrypt P S big (encrypt P S big m out src len) back out len (back + j) ≡ m (src + j)
unfolding encrypt decrypt
decrypt-encrypt_boxes P S big m src out back len j P_words bytes a1 a2 lt =
    each_block_undo big (λ v. halves big (encrypt_v P S (halves big v)))
      (λ v. halves big (decrypt_v P S (halves big v)))
      (λ v h. halves-IsWords big _ (encrypt_v-IsWords P S P_words _ (halves-IsWords big v h)))
      (λ v h. halves-IsWords big _ (decrypt_v-IsWords P S P_words _ (halves-IsWords big v h)))
      (λ v h.
        rw
          (halves-halves big (encrypt_v P S (halves big v)), decrypt_v-encrypt_v P S (halves big v))
          (halves-halves big v))
      m src out back len j bytes a1 a2 lt
