-- ===== src/Crypto/Rsa/Recover.antt =====
-- Which bytes survive an encryption and a decryption with the keys that `genkey` makes.
use kinnow_os.Prelude.{
  ◌↔◌, ℕ, zero, suc, ◌+◌, ◌%◌, ◌≤◌, ◌<◌, ◌≡◌, refl, ◌∙◌, ap, ◌⊎◌, true, some, arith, ◌==◌, ltb,
}
use kinnow_os.Storage.Memory.{Memory, IsBytes, write}
use kinnow_os.Crypto.Block.Loop.{Apart}
use kinnow_os.Prelude.Table.{holds_from, holds_from_lem, beq}
use kinnow_os.Crypto.Rsa.Search.{genkey_runs}
use kinnow_os.Crypto.Rsa.{pow32, transform, encrypt, decrypt, genkey, Keys}

transform_outside :
    (m : Memory) (out src i left e n a : ℕ)
    → (a < out + i) ⊎ (out + i + left ≤ a)
    → transform m out src i left e n a ≡ m a
unfolding transform write
transform_outside m out src i zero e n a h = refl
transform_outside m out src i (suc left) e n a h =
    let m' = write m (out + i) (pow32 (m (src + i)) e % n % 256) in
    ground (arith, transform_outside m' out src (i + 1) left e n a)

-- Every byte is transformed by itself, if the buffers are one or do not meet.
transform_inside :
    (m : Memory) (out src i left e n j : ℕ)
    → Apart out src (i + left)
    → i ≤ j
    → j < i + left
    → transform m out src i left e n (out + j) ≡ pow32 (m (src + j)) e % n % 256
unfolding transform write
transform_inside m out src i zero e n j apart h k = absurd (omega arith)
transform_inside m out src i (suc left) e n j apart h k =
    let m' = write m (out + i) (pow32 (m (src + i)) e % n % 256) in
    ground (
      arith,
      transform_inside m' out src (i + 1) left e n j,
      transform_outside m' out src (i + 1) left e n (out + j),
    )

recovered : ℕ → ℕ
recovered x = pow32 (pow32 x 12 % 21 % 256) 2 % 21 % 256

recovered_table : holds_from (λ x. beq (recovered x == x) (ltb x 2)) 0 256 ≡ true
unfolding recovered pow32 holds_from
recovered_table = refl

recovered_iff : (x : ℕ) → x < 256 → (recovered x ≡ x) ↔ (x < 2)
recovered_iff x h = ground (
  arith,
  holds_from_lem (λ y. beq (recovered y == y) (ltb y 2)) 0 256 recovered_table {k = x} (omega arith)
      h,
)

-- A byte comes back from an encryption and a decryption with the generated keys exactly if it is
-- 0 or 1, if the buffers of a call are one or do not meet.
pub decrypt-encrypt_iff :
    (k : Keys) (m : Memory) (src out back size j : ℕ)
    → genkey ≡ some k
    → IsBytes m
    → Apart out src size
    → Apart back out size
    → j < size
    → (decrypt (encrypt m out src size k.e k.n) back out size k.d k.n (back + j) ≡ m (src + j))
      ↔ (m (src + j) < 2)
unfolding encrypt decrypt recovered
decrypt-encrypt_iff k m src out back size j made bytes a1 a2 lt =
    let same : k ≡ record { e = 12; d = 2; n = 21 } = cc genkey_runs in
    let there =
      transform_inside m out src 0 size 12 21 j (omega arith) (omega arith) (omega arith) in
    let again =
      transform_inside (transform m out src 0 size 12 21) back out 0 size 2 21 j (omega arith)
        (omega arith) (omega arith) in
    let value : transform (transform m out src 0 size 12 21) back out 0 size 2 21 (back + j)
        ≡ recovered (m (src + j)) =
      again ∙ ap (λ (y : ℕ). pow32 y 2 % 21 % 256) there in
    rw (same, value) (recovered_iff (m (src + j)) (bytes (src + j)))
