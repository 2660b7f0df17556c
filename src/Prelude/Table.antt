-- ===== src/Prelude/Table.antt =====
-- Statements about small numbers, checked value by value.
use Prim.Native.Nat.{ℕ, zero, suc, ◌+◌, ◌<◌, ◌≤◌}
use mathlib.Core.Path.{◌≡◌, refl}
use mathlib.Core.Bool.{Bool, true, false, ◌&&◌, not}
use native.Mathlib.Omega.{arith}
use kinnow_os.Prelude.Tests.{◌==◌, Bool-cases}
use mathlib.Core.Logic.{inl, inr}

-- The test holds at `count` numbers from `first` on.
unfoldable pub holds_from : (ℕ → Bool) → ℕ → ℕ → Bool
holds_from test first zero = true
holds_from test first (suc count) = test first && holds_from test (first + 1) count

pub holds_from_lem :
    (test : ℕ → Bool) (first count : ℕ)
    → holds_from test first count ≡ true
    → {k : ℕ} → first ≤ k
    → k < first + count
    → test k ≡ true
unfolding holds_from
holds_from_lem test first zero all above below = absurd (omega arith)
holds_from_lem test first (suc count) all {k} above below = elim (Bool-cases (k == first)) [
  | inl here ↦ ground arith
  | inr later ↦ holds_from_lem test (first + 1) count (ground arith) (ground arith) (omega arith)
]

-- Two tests agree.
abbrev pub beq : Bool → Bool → Bool
beq true b = b
beq false b = not b

pub beq_lem : (a b : Bool) → beq a b ≡ true → a ≡ b
beq_lem true true h = refl
beq_lem false false h = refl
beq_lem true false h = cc
beq_lem false true h = cc
