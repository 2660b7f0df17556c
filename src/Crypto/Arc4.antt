-- ===== src/Crypto/Arc4.antt =====
-- The namespace `crypto::arc4` of kernel/crypto.cxx. The box `S` is a function of the index. The
-- answer of `storage::alloc` for the key stream is the argument `granted`; the stream itself is a
-- function, since only indices below `len` are written and read.
pub mod Box
pub mod Behaviour
use kinnow_os.Prelude.{
  ℕ, zero, suc, ◌+◌, ◌%◌, Bool, Option, none, some, true, false, ltb, ◌==◌, if◌then◌else◌, ◌&&◌,
}
use kinnow_os.Words.{bit_and, bit_xor}
use kinnow_os.Storage.Memory.{Memory, write}

-- `swp = S[i]; S[i] = S[j]; S[j] = swp`
pub swap : (ℕ → ℕ) → ℕ → ℕ → ℕ → ℕ
swap S i j k = if k == j then S i else if k == i then S j else S k

pub initial : ℕ → ℕ
initial i = bit_and i 0xff

-- The key schedule from index `i` on, with `left` rounds left. The code divides by the
-- length of the key: that it is not 0 is left to the caller.
pub schedule : (ℕ → ℕ) → ℕ → ℕ → ℕ → ℕ → (ℕ → ℕ) → ℕ → ℕ
schedule key keylen zero i j S = S
schedule key keylen (suc left) i j S =
    let j' = (j + S i + key (i % keylen)) % 256 in schedule key keylen left (i + 1) j' (swap S i j')

-- The variables that outlive the generation of the key stream.
pub record Stream : Type 0 where
  pub i : ℕ
  pub j : ℕ
  pub S : ℕ → ℕ
  pub K : ℕ → ℕ

pub generate : ℕ → ℕ → Stream → Stream
unfolding swap
generate zero k s = s
generate (suc left) k s =
    let i = (k + 1) % 256 in
    let j = (s.j + s.S i) % 256 in
    let S = swap s.S i j in
    generate left (k + 1) (record { i = i; j = j; S = S; K = write s.K k (S ((S i + S j) % 256)) })

-- `for(size_t l = 0; i < len; l++) ctext[l] = _bitstream[l] ^ K[l]`, with the test as it stands
-- in the source, on fuel.
pub xor_loop : ℕ → ℕ → ℕ → ℕ → (ℕ → ℕ) → Memory → ℕ → ℕ → Option Memory
xor_loop zero i len l K m ctext bits = none
xor_loop (suc fuel) i len l K m ctext bits =
    let rest =
      xor_loop fuel i len (l + 1) K (write m (ctext + l) (bit_xor (m (bits + l)) (K l))) ctext
        bits in
    if ltb i len then rest else some m

pub data Outcome : Type 0 where
  returned : Memory → Outcome
  allocation_error out_of_fuel : Outcome

pub outcome : Option Memory → Outcome
outcome none = out_of_fuel
outcome (some m) = returned m

-- `storage::alloc` refuses a size of 0.
pub encrypt : ℕ → Bool → Memory → ℕ → ℕ → ℕ → (ℕ → ℕ) → ℕ → Outcome
unfolding outcome
encrypt fuel granted m ctext bits len key keylen =
    let S = schedule key keylen 256 0 0 initial in
    let s = generate len 0 (record { i = 0; j = 0; S = S; K = λ _. 0 }) in
    let run = outcome (xor_loop fuel s.i len 0 s.K m ctext bits) in
    if granted && ltb 0 len then run else allocation_error
