-- ===== src/Crypto/Arc4/Box.antt =====
-- The box stays a permutation of the bytes through every swap.
use kinnow_os.Prelude.{ℕ, zero, suc, ◌+◌, ◌%◌, ◌<◌, ◌≤◌, ◌≡◌, arith, ◌==◌, true, refl}
use kinnow_os.Prelude.Table.{holds_from, holds_from_lem}
use kinnow_os.Storage.Memory.{write}
use kinnow_os.Crypto.Arc4.{swap, initial, schedule, generate, Stream}

-- Bytes to bytes, and no byte twice.
pub record IsPermutation (S : ℕ → ℕ) : Type 0 where
  pub bounded : (i : ℕ) → i < 256 → S i < 256
  pub distinct : (i j : ℕ) → i < 256 → j < 256 → S i ≡ S j → i ≡ j

swap-IsPermutation :
    (S : ℕ → ℕ) (i j : ℕ) → i < 256 → j < 256 → IsPermutation S → IsPermutation (swap S i j)
unfolding swap
swap-IsPermutation S i j hi hj p = record {
  bounded = λ k hk. ground (arith, p.bounded i, p.bounded j, p.bounded k);
  distinct = λ k l hk hl e. ground (
    arith,
    p.distinct k l,
    p.distinct k i,
    p.distinct k j,
    p.distinct i l,
    p.distinct j l,
    p.distinct i j,
  );
}

initial_table : holds_from (λ x. initial x == x) 0 256 ≡ true
unfolding holds_from initial
initial_table = refl

initial_lem : (i : ℕ) → i < 256 → initial i ≡ i
initial_lem i h =
    ground (arith, holds_from_lem (λ x. initial x == x) 0 256 initial_table {k = i} (omega arith) h)

initial-IsPermutation : IsPermutation initial
initial-IsPermutation = record {
  bounded = λ i h. ground (arith, initial_lem i h);
  distinct = λ i j hi hj e. ground (arith, initial_lem i hi, initial_lem j hj);
}

schedule-IsPermutation :
    (key : ℕ → ℕ) (keylen left i j : ℕ) (S : ℕ → ℕ)
    → i + left ≤ 256
    → IsPermutation S
    → IsPermutation (schedule key keylen left i j S)
unfolding schedule
schedule-IsPermutation key keylen zero i j S h p = p
schedule-IsPermutation key keylen (suc left) i j S h p =
    let j' = (j + S i + key (i % keylen)) % 256 in
    schedule-IsPermutation key keylen left (i + 1) j' (swap S i j') (omega arith)
      (swap-IsPermutation S i j' (omega arith) (omega arith) p)

generate-IsPermutation :
    (left k : ℕ) (s : Stream) → IsPermutation s.S → IsPermutation (generate left k s).S
unfolding generate
generate-IsPermutation zero k s p = p
generate-IsPermutation (suc left) k s p =
    let i = (k + 1) % 256 in
    let j = (s.j + s.S i) % 256 in
    let S = swap s.S i j in
    generate-IsPermutation left (k + 1)
      (record { i = i; j = j; S = S; K = write s.K k (S ((S i + S j) % 256)) })
      (swap-IsPermutation s.S i j (omega arith) (omega arith) p)

-- Whatever the key, the box that the schedule leaves is a permutation of the bytes, and it still
-- is one after any number of rounds of the generator.
pub box-IsPermutation :
    (key : ℕ → ℕ) (keylen len : ℕ) (K : ℕ → ℕ)
    → IsPermutation (schedule key keylen 256 0 0 initial)
      × IsPermutation
          (generate len 0
            (record { i = 0; j = 0; S = schedule key keylen 256 0 0 initial; K = K })).S
box-IsPermutation key keylen len K =
    let p = schedule-IsPermutation key keylen 256 0 0 initial (omega arith) initial-IsPermutation in
    (
      p,
      generate-IsPermutation len 0
          (record { i = 0; j = 0; S = schedule key keylen 256 0 0 initial; K = K }) p,
    )
