-- ===== src/Crypto/Blowfish.antt =====
-- The namespace `crypto::blowfish` of kernel/crypto.cxx. The P-array and the four S-boxes are
-- read-only arrays, read as functions of the index.
pub mod Undo
pub mod Tables
pub mod Genkey
use kinnow_os.Prelude.{ℕ, zero, suc, ◌+◌, ◌-◌, ◌*◌, ◌/◌, ◌%◌, ◌^◌, Bool, if◌then◌else◌}
use kinnow_os.Words.{add32, shr, bit_and, bit_xor}
use kinnow_os.Storage.Memory.{Memory}
use kinnow_os.Crypto.Block.{Pair, pair, rounds, each_block}

-- The halves `l` and `r` of a 64-bit chunk, from the words at its two addresses, and back.
unfoldable pub halves : Bool → Pair → Pair
halves big v = if big then v else pair v.snd v.fst

module _ (S : ℕ → ℕ → ℕ) where
  pub encrypt_f : ℕ → ℕ
  encrypt_f x =
      let h = add32 (S 0 (shr x 24)) (S 1 (bit_and (shr x 16) 0xff)) in
      add32 (bit_xor h (S 2 (bit_and (shr x 8) 0xff))) (S 3 (bit_and x 0xff))

module _ (P : ℕ → ℕ) (S : ℕ → ℕ → ℕ) where
  -- The body of both loops: `L ^= P[r]`, `R ^= f(L)`, and the swap.
  pub feistel : ℕ → Pair → Pair
  feistel r v = let L = bit_xor v.fst (P r) in let R = bit_xor (encrypt_f S L) v.snd in pair R L

  -- `for(size_t r = 0; r < 16; r++)`, from `r` on with `n` rounds left
  pub encrypt_rounds : ℕ → ℕ → Pair → Pair
  encrypt_rounds zero r v = v
  encrypt_rounds (suc n) r v = encrypt_rounds n (r + 1) (feistel r v)

  -- `for(size_t r = 17; r > 1; r--)`
  pub decrypt_rounds : ℕ → ℕ → Pair → Pair
  decrypt_rounds zero r v = v
  decrypt_rounds (suc n) r v = decrypt_rounds n (r - 1) (feistel r v)

  unfoldable pub encrypt_v : Pair → Pair
  encrypt_v v = let w = encrypt_rounds 16 0 v in pair (bit_xor w.snd (P 17)) (bit_xor w.fst (P 16))

  unfoldable pub decrypt_v : Pair → Pair
  decrypt_v v = let w = decrypt_rounds 16 17 v in pair (bit_xor w.snd (P 0)) (bit_xor w.fst (P 1))

  unfoldable pub encrypt : Bool → Memory → ℕ → ℕ → ℕ → Memory
  encrypt big m out src len =
      each_block big (λ v. halves big (encrypt_v (halves big v))) m out src 0 (rounds len)

  unfoldable pub decrypt : Bool → Memory → ℕ → ℕ → ℕ → Memory
  decrypt big m out src len =
      each_block big (λ v. halves big (decrypt_v (halves big v))) m out src 0 (rounds len)
