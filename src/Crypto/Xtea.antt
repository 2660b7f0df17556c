-- ===== src/Crypto/Xtea.antt =====
-- The namespace `crypto::xtea` of kernel/crypto.cxx. A key is read as a function of its index;
-- only the indices 0 to 3 are read. `n_rounds` fits a `uint32_t` where the code casts it.
pub mod Undo
use kinnow_os.Prelude.{ℕ, zero, suc, ◌+◌, ◌*◌, ◌%◌, ◌^◌, Bool}
use kinnow_os.Words.{add32, sub32, shl32, shr, bit_and, bit_xor}
use kinnow_os.Storage.Memory.{Memory}
use kinnow_os.Crypto.Block.{Pair, pair, rounds, each_block}

abbrev pub delta : ℕ
delta = 0x9e3779b9

-- The local variables of the loops.
pub record State : Type 0 where
  pub v0 : ℕ
  pub v1 : ℕ
  pub sum : ℕ

-- `(((v << 4) ^ (v >> 5)) + v) ^ (sum + k)`
unfoldable pub mix : ℕ → ℕ → ℕ → ℕ
mix v sum k = bit_xor (add32 (bit_xor (shl32 v 4) (shr v 5)) v) (add32 sum k)

module _ (key : ℕ → ℕ) where
  unfoldable pub encrypt_round : State → State
  encrypt_round s =
      let v0 = add32 s.v0 (mix s.v1 s.sum (key (bit_and s.sum 3))) in
      let sum = add32 s.sum delta in
      let v1 = add32 s.v1 (mix v0 sum (key (bit_and (shr sum 11) 3))) in
      record { v0 = v0; v1 = v1; sum = sum }

  pub decrypt_round : State → State
  decrypt_round s =
      let v1 = sub32 s.v1 (mix s.v0 s.sum (key (bit_and (shr s.sum 11) 3))) in
      let sum = sub32 s.sum delta in
      let v0 = sub32 s.v0 (mix v1 sum (key (bit_and sum 3))) in
      record { v0 = v0; v1 = v1; sum = sum }

  -- `while(n_rounds > 0) { ...; n_rounds--; }`
  unfoldable pub encrypt_loop : ℕ → State → State
  encrypt_loop zero s = s
  encrypt_loop (suc n_rounds) s = encrypt_loop n_rounds (encrypt_round s)

  pub decrypt_loop : ℕ → State → State
  decrypt_loop zero s = s
  decrypt_loop (suc n_rounds) s = decrypt_loop n_rounds (decrypt_round s)

  unfoldable pub encrypt_v : ℕ → Pair → Pair
  encrypt_v n_rounds v =
      let s = encrypt_loop n_rounds (record { v0 = v.fst; v1 = v.snd; sum = 0 }) in pair s.v0 s.v1

  unfoldable pub decrypt_v : ℕ → Pair → Pair
  decrypt_v n_rounds v =
      let sum = delta * (n_rounds % 2 ^ 32) % 2 ^ 32 in
      let s = decrypt_loop n_rounds (record { v0 = v.fst; v1 = v.snd; sum = sum }) in pair s.v0 s.v1

  unfoldable pub encrypt : Bool → Memory → ℕ → ℕ → ℕ → ℕ → Memory
  encrypt big m out src len n_rounds = each_block big (encrypt_v n_rounds) m out src 0 (rounds len)

  unfoldable pub decrypt : Bool → Memory → ℕ → ℕ → ℕ → ℕ → Memory
  decrypt big m out src len n_rounds = each_block big (decrypt_v n_rounds) m out src 0 (rounds len)
