-- ===== src/Disk/Perms.antt =====
-- kernel/vdisk.cxx, node::check_perms, for the current user of kernel/user.cxx.
use Prim.Native.Nat.{bit_and, bit_and-bitwise, digits, min}
use kinnow_os.Prelude.{
  ℕ, zero, suc, ◌+◌, ◌*◌, ◌/◌, ◌%◌, ◌^◌, ◌<◌, ◌≡◌, refl, ◌∙◌, Bool, true, not, arith, ◌==◌,
  if◌then◌else◌,
}
use kinnow_os.Prelude.Int.{ℤ, eqb_ℤ}
use kinnow_os.Prelude.Table.{holds_from, holds_from_lem, beq, beq_lem}
use kinnow_os.Disk.{Node}

-- The user of the caller: `user_id` and `user->flags`.
pub record Caller : Type 0 where
  pub user_id : ℤ
  pub flags : ℕ

-- `usersys::user_flags::OVERRIDE_PERMS`, the first of an enumeration.
abbrev pub override_perms : ℕ
override_perms = 0

unfoldable pub has_bits : ℕ → ℕ → Bool
has_bits flags req_bits = bit_and flags req_bits == req_bits

module _ {Device : Type 0} where
  unfoldable pub check_perms : Caller → Node Device → ℕ → Bool
  unfolding has_bits
  check_perms c n req_bits =
      if not (bit_and c.flags override_perms == 0)
      then true
      else if not (eqb_ℤ c.user_id n.owner_id)
      then has_bits n.sys_flags req_bits
      else has_bits n.user_flags req_bits

-- The bit `k` of a number.
abbrev pub bit : ℕ → ℕ → Bool
bit n k = n / 2 ^ k % 2 == 1

bit_table :
    holds_from
      (λ x. beq (bit_and (x / 8) (2 ^ (x % 8)) == 2 ^ (x % 8)) (bit (x / 8) (x % 8)))
      0
      2048
    ≡ true
unfolding holds_from
bit_table = refl

has_bits-bit : (flags k : ℕ) → flags < 256 → k < 8 → has_bits flags (2 ^ k) ≡ bit flags k
unfolding has_bits
has_bits-bit flags k small eight =
    let x : flags * 8 + k < 2048 = omega arith in
    let at : (flags * 8 + k) / 8 ≡ flags = omega arith in
    let low : (flags * 8 + k) % 8 ≡ k = omega arith in
    let row =
      holds_from_lem (λ x. beq (bit_and (x / 8) (2 ^ (x % 8)) == 2 ^ (x % 8)) (bit (x / 8) (x % 8)))
        0 2048 bit_table {k = flags * 8 + k} (omega arith) x in
    beq_lem _ _ (rw (at, low) at row)

no_digits : (count x : ℕ) → digits (λ rest. 0) min count x 0 ≡ 0
no_digits zero x = refl
no_digits (suc count) zero = refl
no_digits (suc count) (suc x) = omega (arith, no_digits count (suc x / 2))

and_zero : (x : ℕ) → bit_and x 0 ≡ 0
and_zero x = bit_and-bitwise x 0 ∙ no_digits x x

-- A request for one bit is granted exactly if the bit is set for the owner, or for everybody where
-- the caller is not the owner: neither the flags of the user nor those of the group count.
pub check_perms_lem :
    {Device : Type 0} (c : Caller) (n : Node Device) (k : ℕ)
    → n.user_flags < 256
    → n.sys_flags < 256
    → k < 8
    → check_perms c n (2 ^ k)
      ≡ bit (if eqb_ℤ c.user_id n.owner_id then n.user_flags else n.sys_flags) k
unfolding check_perms
check_perms_lem c n k user sys eight = ground (
  arith,
  and_zero c.flags,
  has_bits-bit n.user_flags k user eight,
  has_bits-bit n.sys_flags k sys eight,
)
