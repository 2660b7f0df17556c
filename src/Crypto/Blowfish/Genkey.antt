-- ===== src/Crypto/Blowfish/Genkey.antt =====
-- kernel/crypto.cxx, crypto::blowfish::genkey. The arrays of the caller are functions of the index.
-- The sizes of the two copies are those of pointers, `held` words of 32 bits: two where a pointer has
-- 64 bits, one where it has 32.
pub mod Words
use kinnow_os.Prelude.{
  ℕ, zero, suc, ◌+◌, ◌*◌, ◌%◌, ◌^◌, Bool, ◌&&◌, List, [], ltb, ◌==◌, if◌then◌else◌, get_or,
}
use kinnow_os.Words.{shl32, bit_xor}
use kinnow_os.Crypto.Block.{Pair, pair}
use kinnow_os.Crypto.Blowfish.{encrypt_v}
use kinnow_os.Crypto.Blowfish.Tables.{bf_sbox, bf_parray}

-- `storage::copy` of the first words of a table.
abbrev pub copy_words : ℕ → List ℕ → (ℕ → ℕ) → ℕ → ℕ
copy_words held table array i = if ltb i held then get_or table i 0 else array i

abbrev pub update : (ℕ → ℕ) → ℕ → ℕ → ℕ → ℕ
update array i v k = if k == i then v else array k

-- The loop over the bytes of a word of the key: the word and the next place in the key. The bits
-- that a byte is put into are zero, so the disjunction is a sum. That the key is not empty is
-- left to the caller: the code divides by its length.
pub key_word : (ℕ → ℕ) → ℕ → ℕ → ℕ → ℕ → ℕ × ℕ
key_word key keylen zero k p = (k, p)
key_word key keylen (suc n) k p = key_word key keylen n (shl32 k 8 + key p % 256) ((p + 1) % keylen)

-- The loop over the P-array with the key, `n` words from `i` on.
pub mix_key : (ℕ → ℕ) → ℕ → ℕ → ℕ → ℕ → (ℕ → ℕ) → ℕ → ℕ
unfolding key_word
mix_key key keylen zero i p P = P
mix_key key keylen (suc n) i p P =
    let (k, next) = key_word key keylen 4 0 p in
    mix_key key keylen n (i + 1) next (update P i (bit_xor (P i) k))

-- The loop that fills the P-array with what it encrypts, `n` pairs from `i` on.
pub expand_parray : ℕ → ℕ → (ℕ → ℕ → ℕ) → (ℕ → ℕ) × Pair → (ℕ → ℕ) × Pair
expand_parray zero i S state = state
expand_parray (suc n) i S (P, v) =
    let w = encrypt_v P S v in
    expand_parray n (i + 2) S (update (update P i w.fst) (i + 1) w.snd, w)

-- The loops that fill the S-boxes: both words of a pair are the left half.
abbrev pub update_box : (ℕ → ℕ → ℕ) → ℕ → ℕ → ℕ → ℕ → ℕ → ℕ
update_box S i j v a b = if a == i && b == j then v else S a b

pub expand_box : ℕ → ℕ → ℕ → (ℕ → ℕ) → (ℕ → ℕ → ℕ) × Pair → (ℕ → ℕ → ℕ) × Pair
expand_box zero i j P state = state
expand_box (suc n) i j P (S, v) =
    let w = encrypt_v P S v in
    expand_box n i (j + 2) P (update_box (update_box S i j w.fst) i (j + 1) w.fst, w)

pub expand_boxes : ℕ → ℕ → (ℕ → ℕ) → (ℕ → ℕ → ℕ) × Pair → (ℕ → ℕ → ℕ) × Pair
unfolding expand_box
expand_boxes zero i P state = state
expand_boxes (suc n) i P state = expand_boxes n (i + 1) P (expand_box 128 i 0 P state)

-- The P-array and the S-boxes afterwards.
pub genkey : ℕ → (ℕ → ℕ) → (ℕ → ℕ → ℕ) → (ℕ → ℕ) → ℕ → (ℕ → ℕ) × (ℕ → ℕ → ℕ)
genkey held parray sbox key keylen =
    let first : ℕ → ℕ = copy_words held (get_or bf_sbox 0 []) (sbox 0) in
    let S : ℕ → ℕ → ℕ = λ i j. if i == 0 then first j else sbox i j in
    let P = mix_key key keylen 18 0 0 (copy_words held bf_parray parray) in
    let (P', v) = expand_parray 9 0 S (P, pair 0 0) in
    let (S', w) = expand_boxes 4 0 P' (S, v) in (P', S')
