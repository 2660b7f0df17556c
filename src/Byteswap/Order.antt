-- ===== src/Byteswap/Order.antt =====
-- The exchange of bytes reverses their order, and undoes itself.
use native.Mathlib.Decide.{ℕ_discrete}
use kinnow_os.Prelude.{
  ℕ, zero, suc, ==_ne, ◌≢◌, ◌+◌, ◌*◌, ◌/◌, ◌%◌, ◌^◌, ◌<◌, ◌≡◌, ◌⊎◌, inl, inr, refl, ap, ap₂, ◌∙◌,
  Bool, true, false, List, [], ◌∷◌, arith,
}
use mathlib.Core.List.{reverse, reverse-reverse}
use kinnow_os.Words.{low_bits, middle_bits, join_bits}
use kinnow_os.Byteswap.{
  bswap16, bswap32, bswap64, bswap, cpu_to_be, cpu_to_le, be_to_cpu, le_to_cpu,
}

-- The byte of a number above its last `k` bits.
abbrev byte : ℕ → ℕ → ℕ
byte x k = x / 2 ^ k % 256

bswap16_lem : (x : ℕ) → x < 2 ^ 16 → bswap16 x ≡ byte x 0 * 2 ^ 8 + byte x 8
unfolding bswap16
bswap16_lem x h =
    rw
      (
        middle_bits 8 8 (x * 2 ^ 8) (x / 2 ^ 8) (x % 256) 0 (omega arith) (omega arith)
            (omega arith),
        low_bits 8 (x / 2 ^ 8) 0 (x / 2 ^ 8) (omega arith) (omega arith),
        join_bits 8 (x % 256 * 2 ^ 8) (x % 256) (x / 2 ^ 8) refl (omega arith),
      )
      (omega arith)

bswap32_lem :
    (x : ℕ)
    → x < 2 ^ 32
    → bswap32 x ≡ byte x 0 * 2 ^ 24 + byte x 8 * 2 ^ 16 + byte x 16 * 2 ^ 8 + byte x 24
unfolding bswap32
bswap32_lem x h =
    rw
      (
        middle_bits 24 8 (x * 2 ^ 24 % 2 ^ 32) 0 (byte x 0) 0 (omega arith) (omega arith)
            (omega arith),
        middle_bits 16 8 (x * 2 ^ 8 % 2 ^ 32) (byte x 16) (byte x 8) (byte x 0 * 256) (omega arith)
            (omega arith) (omega arith),
        middle_bits 8 8 (x / 2 ^ 8) (byte x 24) (byte x 16) (byte x 8) (omega arith) (omega arith)
            (omega arith),
        low_bits 8 (x / 2 ^ 24) 0 (byte x 24) (omega arith) (omega arith),
        join_bits 24 (byte x 0 * 2 ^ 24) (byte x 0) (byte x 8 * 2 ^ 16) refl (omega arith),
        join_bits 16 (byte x 0 * 2 ^ 24 + byte x 8 * 2 ^ 16) (byte x 0 * 2 ^ 8 + byte x 8)
            (byte x 16 * 2 ^ 8) (omega arith) (omega arith),
        join_bits 8 (byte x 0 * 2 ^ 24 + byte x 8 * 2 ^ 16 + byte x 16 * 2 ^ 8)
            (byte x 0 * 2 ^ 16 + byte x 8 * 2 ^ 8 + byte x 16) (byte x 24) (omega arith)
            (omega arith),
      )
      refl

bswap64_lem :
    (x : ℕ)
    → x < 2 ^ 64
    → bswap64 x
      ≡ byte x 0 * 2 ^ 56
        + byte x 8 * 2 ^ 48
        + byte x 16 * 2 ^ 40
        + byte x 24 * 2 ^ 32
        + byte x 32 * 2 ^ 24
        + byte x 40 * 2 ^ 16
        + byte x 48 * 2 ^ 8
        + byte x 56
unfolding bswap64
bswap64_lem x h =
    rw
      (
        middle_bits 56 8 (x * 2 ^ 56 % 2 ^ 64) 0 (byte x 0) 0 (omega arith) (omega arith)
            (omega arith),
        middle_bits 48 8 (x * 2 ^ 40 % 2 ^ 64) (x * 2 ^ 40 % 2 ^ 64 / 2 ^ 56) (byte x 8)
            (x * 2 ^ 40 % 2 ^ 64 % 2 ^ 48) (omega arith) (omega arith) (omega arith),
        middle_bits 40 8 (x * 2 ^ 24 % 2 ^ 64) (x * 2 ^ 24 % 2 ^ 64 / 2 ^ 48) (byte x 16)
            (x * 2 ^ 24 % 2 ^ 64 % 2 ^ 40) (omega arith) (omega arith) (omega arith),
        middle_bits 32 8 (x * 2 ^ 8 % 2 ^ 64) (x * 2 ^ 8 % 2 ^ 64 / 2 ^ 40) (byte x 24)
            (x * 2 ^ 8 % 2 ^ 64 % 2 ^ 32) (omega arith) (omega arith) (omega arith),
        middle_bits 24 8 (x / 2 ^ 8) (x / 2 ^ 8 / 2 ^ 32) (byte x 32) (x / 2 ^ 8 % 2 ^ 24)
            (omega arith) (omega arith) (omega arith),
        middle_bits 16 8 (x / 2 ^ 24) (x / 2 ^ 24 / 2 ^ 24) (byte x 40) (x / 2 ^ 24 % 2 ^ 16)
            (omega arith) (omega arith) (omega arith),
        middle_bits 8 8 (x / 2 ^ 40) (x / 2 ^ 40 / 2 ^ 16) (byte x 48) (x / 2 ^ 40 % 2 ^ 8)
            (omega arith) (omega arith) (omega arith),
        low_bits 8 (x / 2 ^ 56) 0 (byte x 56) (omega arith) (omega arith),
        join_bits 56 (byte x 0 * 2 ^ 56) (byte x 0) (byte x 8 * 2 ^ 48) (omega arith) (omega arith),
        join_bits 48 (byte x 0 * 2 ^ 56 + byte x 8 * 2 ^ 48) (byte x 0 * 2 ^ 8 + byte x 8)
            (byte x 16 * 2 ^ 40) (omega arith) (omega arith),
        join_bits 40 (byte x 0 * 2 ^ 56 + byte x 8 * 2 ^ 48 + byte x 16 * 2 ^ 40)
            (byte x 0 * 2 ^ 16 + byte x 8 * 2 ^ 8 + byte x 16) (byte x 24 * 2 ^ 32) (omega arith)
            (omega arith),
        join_bits 32
            (byte x 0 * 2 ^ 56 + byte x 8 * 2 ^ 48 + byte x 16 * 2 ^ 40 + byte x 24 * 2 ^ 32)
            (byte x 0 * 2 ^ 24 + byte x 8 * 2 ^ 16 + byte x 16 * 2 ^ 8 + byte x 24)
            (byte x 32 * 2 ^ 24) (omega arith) (omega arith),
        join_bits 24
            (byte x 0 * 2 ^ 56
              + byte x 8 * 2 ^ 48
              + byte x 16 * 2 ^ 40
              + byte x 24 * 2 ^ 32
              + byte x 32 * 2 ^ 24)
            (byte x 0 * 2 ^ 32
              + byte x 8 * 2 ^ 24
              + byte x 16 * 2 ^ 16
              + byte x 24 * 2 ^ 8
              + byte x 32)
            (byte x 40 * 2 ^ 16) (omega arith) (omega arith),
        join_bits 16
            (byte x 0 * 2 ^ 56
              + byte x 8 * 2 ^ 48
              + byte x 16 * 2 ^ 40
              + byte x 24 * 2 ^ 32
              + byte x 32 * 2 ^ 24
              + byte x 40 * 2 ^ 16)
            (byte x 0 * 2 ^ 40
              + byte x 8 * 2 ^ 32
              + byte x 16 * 2 ^ 24
              + byte x 24 * 2 ^ 16
              + byte x 32 * 2 ^ 8
              + byte x 40)
            (byte x 48 * 2 ^ 8) (omega arith) (omega arith),
        join_bits 8
            (byte x 0 * 2 ^ 56
              + byte x 8 * 2 ^ 48
              + byte x 16 * 2 ^ 40
              + byte x 24 * 2 ^ 32
              + byte x 32 * 2 ^ 24
              + byte x 40 * 2 ^ 16
              + byte x 48 * 2 ^ 8)
            (byte x 0 * 2 ^ 48
              + byte x 8 * 2 ^ 40
              + byte x 16 * 2 ^ 32
              + byte x 24 * 2 ^ 24
              + byte x 32 * 2 ^ 16
              + byte x 40 * 2 ^ 8
              + byte x 48)
            (byte x 56) (omega arith) (omega arith),
      )
      refl

-- The types whose bytes are exchanged.
abbrev pub IsSize : ℕ → Type 0
IsSize size = (size ≡ 2) ⊎ (size ≡ 4) ⊎ (size ≡ 8)

-- The bytes of a number from the lowest on, and as they stand in the storage of a machine.
abbrev pub bytes : ℕ → ℕ → List ℕ
bytes zero x = []
bytes (suc n) x = x % 256 ∷ bytes n (x / 256)

abbrev pub stored : Bool → ℕ → ℕ → List ℕ
stored true size x = bytes size x
stored false size x = reverse (bytes size x)

bswap-cases : (size x : ℕ) → size ≢ 2 → size ≢ 4 → size ≢ 8 → bswap size x ≡ x
unfolding bswap
bswap-cases size x a b c = rw (==_ne size 2 a, ==_ne size 4 b, ==_ne size 8 c)

bswap16-bswap16 : (x : ℕ) → x < 2 ^ 16 → bswap16 (bswap16 x) ≡ x
bswap16-bswap16 x h =
    omega (arith, bswap16_lem x h, bswap16_lem (bswap16 x) (omega (arith, bswap16_lem x h)))

bswap32-bswap32 : (x : ℕ) → x < 2 ^ 32 → bswap32 (bswap32 x) ≡ x
bswap32-bswap32 x h =
    omega (arith, bswap32_lem x h, bswap32_lem (bswap32 x) (omega (arith, bswap32_lem x h)))

bswap64-bswap64 : (x : ℕ) → x < 2 ^ 64 → bswap64 (bswap64 x) ≡ x
bswap64-bswap64 x h =
    omega (arith, bswap64_lem x h, bswap64_lem (bswap64 x) (omega (arith, bswap64_lem x h)))

bswap-bswap : (size x : ℕ) → x < 2 ^ (8 * size) → bswap size (bswap size x) ≡ x
unfolding bswap
bswap-bswap size x h = elim (ℕ_discrete size 2) [
  | yes two ↦ rw two (bswap16-bswap16 x (rw two at h))
  | no a ↦ elim (ℕ_discrete size 4) [
    | yes four ↦ rw four (bswap32-bswap32 x (rw four at h))
    | no b ↦ elim (ℕ_discrete size 8) [
      | yes eight ↦ rw eight (bswap64-bswap64 x (rw eight at h))
      | no c ↦ rw (==_ne size 2 a, ==_ne size 4 b, ==_ne size 8 c)
    ]
  ]
]

-- What is converted to an order of bytes and back is the number, on both machines, whatever its
-- size.
pub to_cpu-cpu_to :
    (little : Bool) (size x : ℕ)
    → x < 2 ^ (8 * size)
    → (be_to_cpu little size (cpu_to_be little size x) ≡ x)
      × (le_to_cpu little size (cpu_to_le little size x) ≡ x)
unfolding be_to_cpu cpu_to_be le_to_cpu cpu_to_le
to_cpu-cpu_to true size x h = (bswap-bswap size x h, refl)
to_cpu-cpu_to false size x h = (refl, bswap-bswap size x h)

bytes-bswap16 : (x : ℕ) → x < 2 ^ 16 → bytes 2 (bswap16 x) ≡ reverse (bytes 2 x)
bytes-bswap16 x h = rw (bswap16_lem x h) (ap₂ ◌∷◌ (omega arith) (ap₂ ◌∷◌ (omega arith) refl))

bytes-bswap32 : (x : ℕ) → x < 2 ^ 32 → bytes 4 (bswap32 x) ≡ reverse (bytes 4 x)
bytes-bswap32 x h = rw (bswap32_lem x h) (
    ap₂ ◌∷◌ (omega arith)
      (ap₂ ◌∷◌ (omega arith) (ap₂ ◌∷◌ (omega arith) (ap₂ ◌∷◌ (omega arith) refl))))

bytes-bswap64 : (x : ℕ) → x < 2 ^ 64 → bytes 8 (bswap64 x) ≡ reverse (bytes 8 x)
bytes-bswap64 x h = rw (bswap64_lem x h) (
    ap₂ ◌∷◌ (omega arith) (
      ap₂ ◌∷◌ (omega arith) (
        ap₂ ◌∷◌ (omega arith) (
          ap₂ ◌∷◌ (omega arith) (
            ap₂ ◌∷◌ (omega arith)
              (ap₂ ◌∷◌ (omega arith) (ap₂ ◌∷◌ (omega arith) (ap₂ ◌∷◌ (omega arith) refl))))))))

bytes-bswap :
    (size x : ℕ)
    → IsSize size
    → x < 2 ^ (8 * size)
    → bytes size (bswap size x) ≡ reverse (bytes size x)
unfolding bswap
bytes-bswap size x (inl e) h = rw e (bytes-bswap16 x (rw e at h))
bytes-bswap size x (inr (inl e)) h = rw e (bytes-bswap32 x (rw e at h))
bytes-bswap size x (inr (inr e)) h = rw e (bytes-bswap64 x (rw e at h))

-- A number of 2, 4 or 8 bytes that is converted to big-endian stands in the storage of both
-- machines with its highest byte first, and one that is converted to little-endian with its lowest
-- byte first.
pub stored-cpu_to :
    (little : Bool) (size x : ℕ)
    → IsSize size
    → x < 2 ^ (8 * size)
    → (stored little size (cpu_to_be little size x) ≡ reverse (bytes size x))
      × (stored little size (cpu_to_le little size x) ≡ bytes size x)
unfolding cpu_to_be cpu_to_le
stored-cpu_to true size x is h = (bytes-bswap size x is h, refl)
stored-cpu_to false size x is h =
    (refl, ap reverse (bytes-bswap size x is h) ∙ reverse-reverse (bytes size x))
