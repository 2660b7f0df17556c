-- ===== src/Storage/Memory/Compare.antt =====
-- What `storage::compare` tells about two ranges.
use kinnow_os.Prelude.{ℕ, zero, suc, ◌+◌, ◌%◌, ◌^◌, ◌≡◌, ◌↔◌, ◌∙◌, arith}
use kinnow_os.Prelude.Int.{ℤ, pos, ◌+ℤ◌, sub_ℕ, int_laws, pos_part, neg_part}
use kinnow_os.Storage.Memory.{Memory, compare_loop, compare, wrap_int}

-- The sum of the bytes of a range.
unfoldable pub total : Memory → ℕ → ℕ → ℕ
total m s zero = 0
total m s (suc n) = m s + total m (s + 1) n

sub_parts : (a b : ℕ) → pos_part (sub_ℕ a b) + b ≡ neg_part (sub_ℕ a b) + a
sub_parts a b = ground arith

add_subs : (d : ℤ) (a b c e : ℕ) → d +ℤ sub_ℕ a b +ℤ sub_ℕ c e ≡ d +ℤ sub_ℕ (a + c) (b + e)
add_subs d a b c e = omega (int_laws, sub_parts a b, sub_parts c e, sub_parts (a + c) (b + e))

pub sub_zero_iff : (a b : ℕ) → (pos 0 +ℤ sub_ℕ a b ≡ pos 0) ↔ (a ≡ b)
unfolding ◌+ℤ◌
sub_zero_iff a b = ground arith

pub compare_loop-total :
    (m : Memory) (s1 s2 n : ℕ) (diff : ℤ)
    → compare_loop m s1 s2 n diff ≡ diff +ℤ sub_ℕ (total m s1 n) (total m s2 n)
unfolding compare_loop total
compare_loop-total m s1 s2 zero diff = unfold ◌+ℤ◌ in ground arith
compare_loop-total m s1 s2 (suc n) diff =
    compare_loop-total m (s1 + 1) (s2 + 1) n (diff +ℤ sub_ℕ (m s1) (m s2))
    ∙ add_subs diff (m s1) (m s2) _ _

wrap_zero_iff : (a b : ℕ) → (wrap_int (pos 0 +ℤ sub_ℕ a b) ≡ pos 0) ↔ (a % 2 ^ 32 ≡ b % 2 ^ 32)
unfolding ◌+ℤ◌ wrap_int
wrap_zero_iff a b = ground arith

-- `compare` is the difference of the sums of the bytes, in 32 bits: it is 0 exactly for two ranges
-- whose sums agree modulo 2 ^ 32, whatever the order of the bytes and wherever they differ.
pub compare_iff :
    (m : Memory) (s1 s2 n : ℕ)
    → (compare m s1 s2 n ≡ pos 0) ↔ (total m s1 n % 2 ^ 32 ≡ total m s2 n % 2 ^ 32)
unfolding compare
compare_iff m s1 s2 n = rw (compare_loop-total m s1 s2 n (pos 0), compare) (wrap_zero_iff _ _)
