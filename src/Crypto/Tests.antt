-- ===== src/Crypto/Tests.antt =====
-- Runs of the ciphers at concrete inputs, and instances of their theorems.
use kinnow_os.Prelude.{
  ℕ, zero, suc, ◌+◌, ◌*◌, ◌%◌, ◌^◌, ◌<◌, ◌≡◌, refl, ◌↔◌, inl, true, false, some, arith, get_or, [],
  ◌∷◌,
}
use kinnow_os.Storage.Memory.{Memory, IsBytes}
use kinnow_os.Crypto.Block.{Pair, pair}
use kinnow_os.Crypto.Xtea
use kinnow_os.Crypto.Xtea.Undo.{decrypt-encrypt_same_key}
use kinnow_os.Crypto.Blowfish
use kinnow_os.Crypto.Blowfish.Genkey
use kinnow_os.Crypto.Blowfish.Genkey.Words.{decrypt-encrypt_made_keys}
use kinnow_os.Crypto.Rsa
use kinnow_os.Crypto.Rsa.Search.{gcd32-snd, genkey_runs}
use kinnow_os.Crypto.Rsa.Recover.{decrypt-encrypt_iff}
use kinnow_os.Crypto.Arc4
use kinnow_os.Crypto.Arc4.Box.{IsPermutation, box-IsPermutation}
use kinnow_os.Crypto.Arc4.Behaviour.{encrypt_lem}

abbrev counting : Memory
counting a = (a * 7 + 3) % 256

counting-IsBytes : IsBytes counting
counting-IsBytes a = omega arith

abbrev words : ℕ → ℕ
words i = get_or (0x01234567 ∷ 0x89abcdef ∷ 0xfedcba98 ∷ 0x76543210 ∷ []) i 0

words-lt : (i : ℕ) → words i < 2 ^ 32
words-lt zero = omega arith
words-lt (suc zero) = omega arith
words-lt (suc (suc zero)) = omega arith
words-lt (suc (suc (suc zero))) = omega arith
words-lt (suc (suc (suc (suc i)))) = omega arith

abbrev plain : Pair
plain = pair 0x41424344 0x45464748

-- The published test vector of the cipher: this key and text, 32 rounds.
xtea_vector :
    Xtea.encrypt_v
      (λ i. get_or (0x00010203 ∷ 0x04050607 ∷ 0x08090a0b ∷ 0x0c0d0e0f ∷ []) i 0)
      32
      plain
    ≡ pair 0x497df3d0 0x72612cb5
unfolding Xtea.encrypt_v Xtea.encrypt_loop Xtea.encrypt_round Xtea.mix
xtea_vector = refl

decrypt-encrypt_same_key_example :
    Xtea.decrypt words true (Xtea.encrypt words true counting 16 0 12 32) 32 16 12 32 (32 + 9)
    ≡ counting (0 + 9)
decrypt-encrypt_same_key_example =
    decrypt-encrypt_same_key words true counting 0 16 32 12 32 9 counting-IsBytes (omega arith)
      (omega arith) (omega arith) (omega arith)

decrypt-encrypt_made_keys_example :
    let (P, S) = Genkey.genkey 2 words (λ i x. i + x) (λ i. i) 4 in
    Blowfish.decrypt P S false (Blowfish.encrypt P S false counting 0 0 12) 0 0 12 (0 + 9)
    ≡ counting (0 + 9)
decrypt-encrypt_made_keys_example =
    decrypt-encrypt_made_keys 2 words (λ i x. i + x) (λ i. i) 4 false counting 0 0 0 12 9 words-lt
      counting-IsBytes (inl refl) (inl refl) (omega arith)

gcd32-snd_example : Rsa.gcd32 9 8 12 ≡ some 12
gcd32-snd_example = gcd32-snd 9 8 12 (omega arith)

decrypt-encrypt_iff_example :
    (Rsa.decrypt (Rsa.encrypt counting 8 0 4 12 21) 16 8 4 2 21 (16 + 2) ≡ counting (0 + 2))
    ↔ (counting (0 + 2) < 2)
decrypt-encrypt_iff_example =
    decrypt-encrypt_iff (record { e = 12; d = 2; n = 21 }) counting 0 8 16 4 2 genkey_runs
      counting-IsBytes (omega arith) (omega arith) (omega arith)

box-IsPermutation_example :
    IsPermutation (Arc4.schedule words 4 256 0 0 Arc4.initial)
    × IsPermutation
        (Arc4.generate 5 0
          (record { i = 0; j = 0; S = Arc4.schedule words 4 256 0 0 Arc4.initial; K = λ _. 0 })).S
box-IsPermutation_example = box-IsPermutation words 4 5 (λ _. 0)

encrypt_lem_example : Arc4.encrypt 3 true counting 0 100 20 words 4 ≡ Arc4.returned counting
encrypt_lem_example = encrypt_lem 2 true counting 0 100 20 words 4
