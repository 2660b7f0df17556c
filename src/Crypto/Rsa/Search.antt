-- ===== src/Crypto/Rsa/Search.antt =====
-- What `gcd32` computes and which keys `genkey` therefore finds.
use kinnow_os.Prelude.{ℕ, zero, suc, ◌+◌, ◌%◌, ◌≤◌, ◌<◌, ◌≡◌, refl, some, arith}
use kinnow_os.Crypto.Rsa.{gcd32, find_e, genkey}

-- `gcd32` ends, since its first argument falls, and returns its second argument as it was given,
-- whatever the first one is.
pub gcd32-snd : (fuel a b : ℕ) → a < fuel → gcd32 fuel a b ≡ some b
unfolding gcd32
gcd32-snd zero a b h = absurd (omega arith)
gcd32-snd (suc fuel) zero b h = refl
gcd32-snd (suc fuel) (suc a) b h = ground (arith, gcd32-snd fuel (b % suc a) b (omega arith))

-- So the search for an exponent never stops early: from any start it runs up to `phi`.
pub find_e-phi : (fuel phi e : ℕ) → e ≤ phi → phi < e + fuel → find_e fuel phi e ≡ some phi
unfolding find_e
find_e-phi zero phi e h lt = absurd (omega arith)
find_e-phi (suc fuel) phi e h lt =
    ground (arith, gcd32-snd (e + 1) e phi (omega arith), find_e-phi fuel phi (e + 1))

pub genkey_runs : genkey ≡ some (record { e = 12; d = 2; n = 21 })
unfolding genkey
genkey_runs = refl
