-- ===== src/Crypto/Rsa.antt =====
-- The namespace `crypto::rsa` of kernel/crypto.cxx, and the helpers `gcd32` and `pow32`.
pub mod Search
pub mod Recover
use kinnow_os.Prelude.{
  ℕ, zero, suc, ◌+◌, ◌-◌, ◌*◌, ◌/◌, ◌%◌, ◌^◌, Option, none, some, ltb, ◌==◌, if◌then◌else◌,
}
use kinnow_os.Storage.Memory.{Memory, write}

-- The recursive calls of `gcd32` on fuel; `none` means that the fuel ran out.
pub gcd32 : ℕ → ℕ → ℕ → Option ℕ
gcd32 zero a b = none
gcd32 (suc fuel) a b = let rest = gcd32 fuel (b % a) b in if a == 0 then some b else rest

-- `while(b--) r *= a`
pow_loop : ℕ → ℕ → ℕ → ℕ
pow_loop a zero r = r
pow_loop a (suc b) r = pow_loop a b (r * a % 2 ^ 32)

pub pow32 : ℕ → ℕ → ℕ
unfolding pow_loop
pow32 a b = pow_loop a b 1

abbrev bind : Option ℕ → (ℕ → Option ℕ) → Option ℕ
bind none k = none
bind (some a) k = k a

-- `while(e < phi) { if(gcd32(e, phi) == 0) break; e++; }`
pub find_e : ℕ → ℕ → ℕ → Option ℕ
find_e zero phi e = none
find_e (suc fuel) phi e =
    let rest = find_e fuel phi (e + 1) in
    let body = bind (gcd32 (e + 1) e phi) (λ g. if g == 0 then some e else rest) in
    if ltb e phi then body else some e

pub record Keys : Type 0 where
  pub e : ℕ
  pub d : ℕ
  pub n : ℕ

-- `genkey` for the primes `p` and `q`, which the code fixes to 3 and 7.
keys_for : ℕ → ℕ → Option Keys
unfolding find_e gcd32
keys_for p q =
    let phi = (p - 1) * (q - 1) in
    elim (find_e (phi + 1) phi 2) [
      | none ↦ none
      | some e ↦ some (record { e = e; d = (1 + 2 * phi) / e; n = p * q })
    ]

pub genkey : Option Keys
unfolding keys_for
genkey = keys_for 3 7

-- `out[i] = static_cast<uint8_t>(pow32(data[i], e) % n)`, from index `i` on; `decrypt` has the
-- same body with the key `d`.
pub transform : Memory → ℕ → ℕ → ℕ → ℕ → ℕ → ℕ → Memory
transform m out src i zero e n = m
transform m out src i (suc left) e n =
    transform (write m (out + i) (pow32 (m (src + i)) e % n % 256)) out src (i + 1) left e n

pub encrypt : Memory → ℕ → ℕ → ℕ → ℕ → ℕ → Memory
unfolding transform
encrypt m out src size e n = transform m out src 0 size e n

pub decrypt : Memory → ℕ → ℕ → ℕ → ℕ → ℕ → Memory
unfolding transform
decrypt m out src size d n = transform m out src 0 size d n
