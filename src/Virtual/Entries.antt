-- ===== src/Virtual/Entries.antt =====
-- The masks of kernel/s390/virtual.hxx as quotients and remainders, and what invalidate leaves.
use kinnow_os.Prelude.{
  ℕ, zero, suc, ◌+◌, ◌*◌, ◌/◌, ◌%◌, ◌^◌, ◌≤◌, ◌<◌, ◌≡◌, ◌≢◌, ◌⊎◌, inl, inr, refl, true, false,
  arith, ==_refl, ==_ne,
}
use kinnow_os.Words.{
  bit_and, bit_or, bit_or-fields, bit_or-zero, bit_or-halves, low_bits, middle_bits, join_bits,
}
use kinnow_os.Virtual.{
  Entries, write, segment_origin, segment_invalid, page_origin, segment_idx, page_idx, invalidate,
}

pub bit_and-offset : (v : ℕ) → bit_and v 0xfff ≡ v % 4096
bit_and-offset v = low_bits 12 v (v / 4096) (v % 4096) (omega arith) (omega arith)

pub segment_idx_lem : (v : ℕ) → segment_idx v ≡ v / 2 ^ 20 % 2048
unfolding segment_idx
segment_idx_lem v =
    low_bits 11 (v / 2 ^ 20) (v / 2 ^ 31) (v / 2 ^ 20 % 2048) (omega arith) (omega arith)

pub page_idx_lem : (v : ℕ) → page_idx v ≡ v / 2 ^ 12 % 256
unfolding page_idx
page_idx_lem v = low_bits 8 (v / 2 ^ 12) (v / 2 ^ 20) (v / 2 ^ 12 % 256) (omega arith) (omega arith)

pub segment_origin_lem : (e : ℕ) → segment_origin e ≡ e % 2 ^ 32 / 2 ^ 11 * 2 ^ 11
unfolding segment_origin
segment_origin_lem e =
    middle_bits 11 21 e (e / 2 ^ 32) (e % 2 ^ 32 / 2 ^ 11) (e % 2 ^ 11) (omega arith) (omega arith)
      (omega arith)

pub page_origin_lem : (e : ℕ) → page_origin e ≡ e % 2 ^ 32 / 2 ^ 12 * 2 ^ 12
unfolding page_origin
page_origin_lem e =
    middle_bits 12 20 e (e / 2 ^ 32) (e % 2 ^ 32 / 2 ^ 12) (e % 2 ^ 12) (omega arith) (omega arith)
      (omega arith)

-- The address of a table has a clear invalid bit.
pub segment_invalid-table : (t : ℕ) → t % 2048 ≡ 0 → segment_invalid t ≡ false
unfolding segment_invalid
segment_invalid-table t h =
    rw (middle_bits 5 1 t (t / 64) 0 0 (omega arith) (omega arith) (omega arith)) refl

-- What `map_page` writes is read back without its flags, and cut to 32 bits.
pub page_origin-bit_or :
    (p flags : ℕ) → p % 4096 ≡ 0 → flags < 4096 → page_origin (bit_or p flags) ≡ p % 2 ^ 32
page_origin-bit_or p flags h f =
    rw (join_bits 12 p (p / 4096) flags (omega arith) f, page_origin_lem (p + flags)) (omega arith)

-- A frame and an offset are joined by a sum.
pub join-offset :
    (frame v : ℕ) → frame % 4096 ≡ 0 → bit_or frame (bit_and v 0xfff) ≡ frame + v % 4096
join-offset frame v h =
    rw (bit_and-offset v) (join_bits 12 frame (frame / 4096) (v % 4096) (omega arith) (omega arith))

pub write_self : (m : Entries) (p v : ℕ) → write m p v p ≡ v
unfolding write
write_self m p v = rw (==_refl p)

pub write-other : (m : Entries) (p v a : ℕ) → a ≢ p → write m p v a ≡ m a
unfolding write
write-other m p v a h = rw (==_ne a p h)

-- `invalidate` leaves what stands in front of its table or behind it.
pub invalidate-outside :
    (bit t n : ℕ) (m : Entries) (a : ℕ) → (a < t) ⊎ (t + 8 * n ≤ a) → invalidate bit t n m a ≡ m a
unfolding invalidate
invalidate-outside bit t zero m a h = refl
invalidate-outside bit t (suc n) m a (inl h) = ground (
  arith,
  invalidate-outside bit (t + 8) n (write m t (bit_or (m t) bit)) a (inl (omega arith)),
  write-other m t (bit_or (m t) bit) a,
)
invalidate-outside bit t (suc n) m a (inr h) = ground (
  arith,
  invalidate-outside bit (t + 8) n (write m t (bit_or (m t) bit)) a (inr (omega arith)),
  write-other m t (bit_or (m t) bit) a,
)

-- `invalidate` sets the bit in every entry of its table.
pub invalidate-inside :
    (bit t n : ℕ) (m : Entries) (i : ℕ)
    → i < n
    → invalidate bit t n m (t + 8 * i) ≡ bit_or (m (t + 8 * i)) bit
unfolding invalidate
invalidate-inside bit t zero m i h = absurd (omega arith)
invalidate-inside bit t (suc n) m zero h =
    rw
      (invalidate-outside bit (t + 8) n (write m t (bit_or (m t) bit)) (t + 8 * 0)
        (inl (omega arith)))
      (let e : t + 8 * 0 ≡ t = omega arith in rw e (write_self m t (bit_or (m t) bit)))
invalidate-inside bit t (suc n) m (suc i) h =
    let e : t + 8 * suc i ≡ t + 8 + 8 * i = omega arith in
    rw (
      e,
      invalidate-inside bit (t + 8) n (write m t (bit_or (m t) bit)) i (omega arith),
      write-other m t (bit_or (m t) bit) (t + 8 + 8 * i) (λ q. omega arith),
    )

-- Setting one digit.
set_bit : (h b : ℕ) → b < 2 → bit_or (h * 2 + b) 1 ≡ h * 2 + 1
set_bit h b p = ground (arith, bit_or-halves (h * 2 + b) 1, bit_or-zero h)

mark_bit :
    (k e h b l : ℕ)
    → e ≡ (h * 2 + b) * 2 ^ k + l
    → l < 2 ^ k
    → b < 2
    → bit_or e (2 ^ k) ≡ (h * 2 + 1) * 2 ^ k + l
mark_bit k e h b l split p q =
    ground (arith, bit_or-fields k (h * 2 + b) l 1 0, bit_or-zero l, set_bit h b q)

-- The entry of a segment that is marked invalid is invalid.
pub segment_invalid-marked : (e : ℕ) → segment_invalid (bit_or e 0x20) ≡ true
unfolding segment_invalid
segment_invalid-marked e =
    rw (mark_bit 5 e (e / 64) (e / 32 % 2) (e % 32) (omega arith) (omega arith) (omega arith)) (
      rw
        (middle_bits 5 1 ((e / 64 * 2 + 1) * 2 ^ 5 + e % 32) (e / 64) 1 (e % 32) (omega arith)
          (omega arith) (omega arith))
        refl)

-- The mark of an invalid page does not change its frame.
pub page_origin-marked : (e : ℕ) → page_origin (bit_or e 0x400) ≡ page_origin e
page_origin-marked e = omega (
  arith,
  page_origin_lem e,
  page_origin_lem (bit_or e 0x400),
  mark_bit 10 e (e / 2048) (e / 1024 % 2) (e % 1024) (omega arith) (omega arith) (omega arith),
)
