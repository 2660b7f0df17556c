-- ===== src/Crypto/Arc4/Behaviour.antt =====
-- What the function does as a whole.
use kinnow_os.Prelude.{
  ℕ, zero, suc, ◌+◌, ◌%◌, ◌<◌, ◌≡◌, refl, Bool, none, some, arith, ltb, if◌then◌else◌, ◌&&◌, inl,
  inr, Bool-cases, ltb→lt,
}
use kinnow_os.Storage.Memory.{Memory, write}
use kinnow_os.Words.{bit_xor}
use kinnow_os.Crypto.Arc4.{
  Stream, swap, initial, schedule, generate, xor_loop, returned, allocation_error, out_of_fuel,
  encrypt,
}

-- The generator leaves its index at the number of rounds, modulo the size of the box.
index-generate :
    (left k : ℕ) (s : Stream) → s.i ≡ k % 256 → (generate left k s).i ≡ (k + left) % 256
unfolding generate
index-generate zero k s h = omega arith
index-generate (suc left) k s h =
    let i = (k + 1) % 256 in
    let j = (s.j + s.S i) % 256 in
    let S = swap s.S i j in
    let next : Stream = record { i = i; j = j; S = S; K = write s.K k (S ((S i + S j) % 256)) } in
    omega (arith, index-generate left (k + 1) next refl)

-- The last loop tests an index that it does not change.
xor_loop_forever :
    (fuel i len l : ℕ) (K : ℕ → ℕ) (m : Memory) (ctext bits : ℕ)
    → i < len
    → xor_loop fuel i len l K m ctext bits ≡ none
unfolding xor_loop
xor_loop_forever zero i len l K m ctext bits h = refl
xor_loop_forever (suc fuel) i len l K m ctext bits h = ground (
  arith,
  xor_loop_forever fuel i len (l + 1) K (write m (ctext + l) (bit_xor (m (bits + l)) (K l))) ctext
      bits h,
)

xor_loop_lem :
    (fuel i len l : ℕ) (K : ℕ → ℕ) (m : Memory) (ctext bits : ℕ)
    → i ≡ len % 256
    → xor_loop (suc fuel) i len l K m ctext bits ≡ (if ltb len 256 then some m else none)
xor_loop_lem fuel i len l K m ctext bits h = elim (Bool-cases (ltb i len)) [
  | inl more ↦
      rw (xor_loop_forever (suc fuel) i len l K m ctext bits (ltb→lt i len more)) (ground arith)
  | inr done ↦ unfold xor_loop in ground arith
]

-- No call encrypts anything: below 256 bytes the function returns with the memory as it was, from
-- 256 bytes on it does not return at any fuel, and it fails for an empty stream or where storage
-- is refused.
pub encrypt_lem :
    (fuel : ℕ) (granted : Bool) (m : Memory) (ctext bits len : ℕ) (key : ℕ → ℕ) (keylen : ℕ)
    → encrypt (suc fuel) granted m ctext bits len key keylen ≡ (
        if granted && ltb 0 len
        then (if ltb len 256 then returned m else out_of_fuel)
        else allocation_error)
unfolding encrypt
encrypt_lem fuel granted m ctext bits len key keylen =
    let S = schedule key keylen 256 0 0 initial in
    let start : Stream = record { i = 0; j = 0; S = S; K = λ _. 0 } in
    let s = generate len 0 start in
    let at_end : s.i ≡ len % 256 = omega (arith, index-generate len 0 start refl) in
    ground (arith, xor_loop_lem fuel s.i len 0 s.K m ctext bits at_end)
