-- ===== src/Crypto/Xtea/Undo.antt =====
-- `decrypt` undoes `encrypt`.
use kinnow_os.Prelude.{ℕ, zero, suc, ◌+◌, ◌*◌, ◌%◌, ◌^◌, ◌<◌, ◌≡◌, refl, ap, Bool, arith}
use kinnow_os.Words.{add32, shr, bit_and, sub32-add32, bit_xor-lt}
use kinnow_os.Storage.Memory.{Memory, IsBytes}
use kinnow_os.Crypto.Block.{Pair, pair, IsWords, rounds}
use kinnow_os.Crypto.Block.Loop.{Apart, each_block_undo}
use kinnow_os.Crypto.Xtea.{
  State, delta, mix, encrypt_round, decrypt_round, encrypt_loop, decrypt_loop, encrypt_v, decrypt_v,
  encrypt, decrypt,
}

mix-lt : (v sum k : ℕ) → mix v sum k < 2 ^ 32
unfolding mix
mix-lt v sum k = bit_xor-lt 32 _ _ (omega arith) (omega arith)

abbrev Fits : State → Type 0
Fits s = (s.v0 < 2 ^ 32) × (s.v1 < 2 ^ 32) × (s.sum < 2 ^ 32)

module _ (key : ℕ → ℕ) where
  encrypt_round-Fits : (s : State) → Fits (encrypt_round key s)
  unfolding encrypt_round
  encrypt_round-Fits s = (omega arith, omega arith, omega arith)

  decrypt_round-Fits : (s : State) → Fits (decrypt_round key s)
  unfolding decrypt_round
  decrypt_round-Fits s = (omega arith, omega arith, omega arith)

  decrypt_round_undo : (s : State) → Fits s → decrypt_round key (encrypt_round key s) ≡ s
  unfolding encrypt_round decrypt_round
  decrypt_round_undo s (h0, h1, hs) =
      let v0 = add32 s.v0 (mix s.v1 s.sum (key (bit_and s.sum 3))) in
      let sum = add32 s.sum delta in
      rw (
        sub32-add32 s.v1 (mix v0 sum (key (bit_and (shr sum 11) 3))) h1 (mix-lt _ _ _),
        sub32-add32 s.sum delta hs (omega arith),
        sub32-add32 s.v0 (mix s.v1 s.sum (key (bit_and s.sum 3))) h0 (mix-lt _ _ _),
      )

  -- The last round of a run is the first that is undone.
  encrypt_loop-last :
      (n : ℕ) (s : State) → encrypt_loop key (suc n) s ≡ encrypt_round key (encrypt_loop key n s)
  unfolding encrypt_loop
  encrypt_loop-last zero s = refl
  encrypt_loop-last (suc n) s = encrypt_loop-last n (encrypt_round key s)

  encrypt_loop-Fits : (n : ℕ) (s : State) → Fits s → Fits (encrypt_loop key n s)
  unfolding encrypt_loop
  encrypt_loop-Fits zero s h = h
  encrypt_loop-Fits (suc n) s h = encrypt_loop-Fits n (encrypt_round key s) (encrypt_round-Fits s)

  decrypt_loop-Fits : (n : ℕ) (s : State) → Fits s → Fits (decrypt_loop key n s)
  unfolding decrypt_loop
  decrypt_loop-Fits zero s h = h
  decrypt_loop-Fits (suc n) s h = decrypt_loop-Fits n (decrypt_round key s) (decrypt_round-Fits s)

  decrypt_loop_undo : (n : ℕ) (s : State) → Fits s → decrypt_loop key n (encrypt_loop key n s) ≡ s
  unfolding decrypt_loop encrypt_loop
  decrypt_loop_undo zero s h = refl
  decrypt_loop_undo (suc n) s h =
      rw
        (encrypt_loop-last n s, decrypt_round_undo (encrypt_loop key n s) (encrypt_loop-Fits n s h))
        (decrypt_loop_undo n s h)

  sum_after :
      (n : ℕ) (s : State)
      → s.sum < 2 ^ 32
      → (encrypt_loop key n s).sum ≡ (s.sum + delta * n) % 2 ^ 32
  unfolding encrypt_loop encrypt_round
  sum_after zero s h = omega arith
  sum_after (suc n) s h = omega (arith, sum_after n (encrypt_round key s) (omega arith))

  -- On a pair of words `decrypt_v` undoes `encrypt_v` at the same number of rounds.
  pub decrypt_v-encrypt_v :
      (n_rounds : ℕ) (v : Pair)
      → n_rounds < 2 ^ 32
      → IsWords v
      → decrypt_v key n_rounds (encrypt_v key n_rounds v) ≡ v
  unfolding encrypt_v decrypt_v
  decrypt_v-encrypt_v n_rounds v small h =
      let start : State = record { v0 = v.fst; v1 = v.snd; sum = 0 } in
      let final = encrypt_loop key n_rounds start in
      let sum = delta * (n_rounds % 2 ^ 32) % 2 ^ 32 in
      let same_sum : sum ≡ final.sum = omega (arith, sum_after n_rounds start (omega arith)) in
      rw same_sum (
        ap (λ (s : State). pair s.v0 s.v1)
          (decrypt_loop_undo n_rounds start (h.0, h.1, omega arith)))

  encrypt_v-IsWords : (n : ℕ) (v : Pair) → IsWords v → IsWords (encrypt_v key n v)
  unfolding encrypt_v
  encrypt_v-IsWords n v h = omega (
    arith,
    encrypt_loop-Fits n (record { v0 = v.fst; v1 = v.snd; sum = 0 }) (h.0, h.1, omega arith),
  )

  decrypt_v-IsWords : (n : ℕ) (v : Pair) → IsWords v → IsWords (decrypt_v key n v)
  unfolding decrypt_v
  decrypt_v-IsWords n v h =
      let sum = delta * (n % 2 ^ 32) % 2 ^ 32 in
      omega (
        arith,
        decrypt_loop-Fits n (record { v0 = v.fst; v1 = v.snd; sum = sum }) (h.0, h.1, omega arith),
      )

  -- Decrypting an encrypted buffer with the same key and number of rounds gives its bytes back,
  -- on a machine of either byte order, for every length, if the buffers of a call are the same or
  -- do not meet over the length rounded up to whole blocks.
  pub decrypt-encrypt_same_key :
      (big : Bool) (m : Memory) (src out back len n_rounds j : ℕ)
      → IsBytes m
      → n_rounds < 2 ^ 32
      → Apart out src (8 * rounds len)
      → Apart back out (8 * rounds len)
      → j < len
      → decrypt key big (encrypt key big m out src len n_rounds) back out len n_rounds (back + j)
        ≡ m (src + j)
  unfolding encrypt decrypt
  decrypt-encrypt_same_key big m src out back len n_rounds j bytes small a1 a2 lt =
      each_block_undo big (encrypt_v key n_rounds) (decrypt_v key n_rounds)
        (encrypt_v-IsWords n_rounds) (decrypt_v-IsWords n_rounds)
        (λ v. decrypt_v-encrypt_v n_rounds v small) m src out back len j bytes a1 a2 lt
