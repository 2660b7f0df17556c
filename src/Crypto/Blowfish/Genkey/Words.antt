-- ===== src/Crypto/Blowfish/Genkey/Words.antt =====
-- kernel/crypto.cxx: what genkey makes are words, so that what it makes can be used.
use kinnow_os.Prelude.{
  ℕ, zero, suc, ◌+◌, ◌*◌, ◌%◌, ◌^◌, ◌<◌, ◌≡◌, refl, Bool, true, List, [], ◌∷◌, arith, ltb, get_or,
  ◌&&◌,
}
use kinnow_os.Words.{shl32, bit_xor, bit_xor-lt}
use kinnow_os.Storage.Memory.{Memory, IsBytes}
use kinnow_os.Crypto.Block.{Pair, pair, IsWords, rounds}
use kinnow_os.Crypto.Block.Loop.{Apart}
use kinnow_os.Crypto.Blowfish.{encrypt_v, encrypt, decrypt}
use kinnow_os.Crypto.Blowfish.Tables.{bf_parray}
use kinnow_os.Crypto.Blowfish.Undo.{encrypt_v-IsWords, decrypt-encrypt_boxes}
use kinnow_os.Crypto.Blowfish.Genkey.{copy_words, update, key_word, mix_key, expand_parray, genkey}

abbrev pub AreWords : (ℕ → ℕ) → Type 0
AreWords P = (r : ℕ) → P r < 2 ^ 32

-- All entries are words.
abbrev all_words : List ℕ → Bool
all_words [] = true
all_words (x ∷ xs) = ltb x (2 ^ 32) && all_words xs

get_or-words : (xs : List ℕ) (i : ℕ) → all_words xs ≡ true → get_or xs i 0 < 2 ^ 32
get_or-words [] i h = omega arith
get_or-words (x ∷ xs) zero h = ground (arith, h)
get_or-words (x ∷ xs) (suc i) h = get_or-words xs i (ground (arith, h))

key_word-lt : (key : ℕ → ℕ) (keylen n k p : ℕ) → k < 2 ^ 32 → (key_word key keylen n k p).0 < 2 ^ 32
unfolding key_word
key_word-lt key keylen zero k p h = h
key_word-lt key keylen (suc n) k p h =
    key_word-lt key keylen n (shl32 k 8 + key p % 256) ((p + 1) % keylen) (omega arith)

update-AreWords : (P : ℕ → ℕ) (i v : ℕ) → AreWords P → v < 2 ^ 32 → AreWords (update P i v)
update-AreWords P i v words h = λ r. ground (arith, words r)

mix_key-AreWords :
    (key : ℕ → ℕ) (keylen n i p : ℕ) (P : ℕ → ℕ)
    → AreWords P
    → AreWords (mix_key key keylen n i p P)
unfolding mix_key
mix_key-AreWords key keylen zero i p P words = words
mix_key-AreWords key keylen (suc n) i p P words =
    let w = key_word key keylen 4 0 p in
    let small = key_word-lt key keylen 4 0 p (omega arith) in
    mix_key-AreWords key keylen n (i + 1) w.1 (update P i (bit_xor (P i) w.0))
      (update-AreWords P i _ words (bit_xor-lt 32 _ _ (words i) small))

expand_parray-AreWords :
    (n i : ℕ) (S : ℕ → ℕ → ℕ) (P : ℕ → ℕ) (v : Pair)
    → AreWords P
    → IsWords v
    → AreWords (expand_parray n i S (P, v)).0
unfolding expand_parray
expand_parray-AreWords zero i S P v words h = words
expand_parray-AreWords (suc n) i S P v words h =
    let w = encrypt_v P S v in
    let is = encrypt_v-IsWords P S words v h in
    expand_parray-AreWords n (i + 2) S (update (update P i w.fst) (i + 1) w.snd) w
      (update-AreWords _ (i + 1) _ (update-AreWords P i _ words is.0) is.1) is

genkey-AreWords :
    (held : ℕ) (parray : ℕ → ℕ) (sbox : ℕ → ℕ → ℕ) (key : ℕ → ℕ) (keylen : ℕ)
    → AreWords parray
    → AreWords (genkey held parray sbox key keylen).0
unfolding genkey
genkey-AreWords held parray sbox key keylen words =
    let table : (r : ℕ) → get_or bf_parray r 0 < 2 ^ 32 = λ r. get_or-words bf_parray r refl in
    let start : AreWords (copy_words held bf_parray parray) =
      λ r. ground (arith, table r, words r) in
    expand_parray-AreWords 9 0 _ _ (pair 0 0) (mix_key-AreWords key keylen 18 0 0 _ start)
      (omega arith, omega arith)

-- What is encrypted with the P-array and the S-boxes that genkey makes is decrypted with them, whatever
-- the key, the S-boxes of the caller, and the words of the caller's P-array: on a machine of either
-- byte order, for every length, if the buffers of a call are the same or do not meet over the length
-- rounded up to whole blocks.
pub decrypt-encrypt_made_keys :
    (held : ℕ) (parray : ℕ → ℕ) (sbox : ℕ → ℕ → ℕ) (key : ℕ → ℕ) (keylen : ℕ) (big : Bool)
    (m : Memory) (src out back len j : ℕ)
    → AreWords parray
    → IsBytes m
    → Apart out src (8 * rounds len)
    → Apart back out (8 * rounds len)
    → j < len
    → let (P, S) = genkey held parray sbox key keylen in
      decrypt P S big (encrypt P S big m out src len) back out len (back + j) ≡ m (src + j)
decrypt-encrypt_made_keys held parray sbox key keylen big m src out back len j words bytes a1 a2
      lt =
    let (P, S) = genkey held parray sbox key keylen in
    decrypt-encrypt_boxes P S big m src out back len j
      (genkey-AreWords held parray sbox key keylen words) bytes a1 a2 lt
