-- ===== src/Disk/Handle/Buffer.antt =====
-- Buffered handles: what `write` collects and `flush` does with it.
use kinnow_os.Prelude.{
  ℕ, zero, suc, ◌+◌, ◌<◌, ◌≡◌, refl, ap, ◌∙◌, inl, inr, true, false, Option, none, some, List, [],
  ◌∷◌, ◌++◌, arith, ◌==◌, if◌then◌else◌, Bool-cases, Option-cases, length,
}
use mathlib.Core.List.{append_assoc, append-nil}
use kinnow_os.Prelude.Int.{ℤ, pos}
use kinnow_os.Storage.DynamicList.Contents.{elements, elements-store, elements_ext, Keeps}
use kinnow_os.Disk.{Driver}
use kinnow_os.Disk.NodeFlags
use kinnow_os.Disk.Perms.{Caller}
use kinnow_os.Disk.Handle.{
  Handle, lay, append_buffer, is_buffered, permitted, callback, driver_of, write, write_with, flush,
}

length-elements : (p : ℕ → ℕ) (i n : ℕ) → length (elements p i n) ≡ n
length-elements p i zero = refl
length-elements p i (suc n) = omega (arith, length-elements p (i + 1) n)

elements-lay :
    (p : ℕ → ℕ) (n : ℕ) (xs : List ℕ)
    → elements (lay p n xs) 0 (n + length xs) ≡ elements p 0 n ++ xs
unfolding lay
elements-lay p n [] = let e : n + 0 ≡ n = omega arith in rw (e, append-nil) refl
elements-lay p n (x ∷ xs) =
    let e : n + suc (length xs) ≡ n + 1 + length xs = omega arith in
    let first = elements-store p p x n (λ i lt. refl) in
    rw (e, elements-lay (λ k. if k == n then x else p k) (n + 1) xs, first)
      (append_assoc (elements p 0 n) (x ∷ []) xs)

module _ {Device : Type 0} where
  -- The handle has collected the bytes `xs`.
  pub data Collects (h : Handle Device) (xs : List ℕ) : Type 0 where
    nothing : h.write_buf ≡ none → h.write_buf_size ≡ 0 → xs ≡ [] → Collects h xs
    bytes : (p : ℕ → ℕ) → h.write_buf ≡ some p → elements p 0 h.write_buf_size ≡ xs → Collects h xs

  kept_elements :
      (h : Handle Device) (xs : List ℕ) (q : ℕ → ℕ)
      → Collects h xs
      → Keeps h.write_buf q h.write_buf_size
      → elements q 0 h.write_buf_size ≡ xs
  kept_elements h xs q (nothing bare z e) keeps = rw (z, e) refl
  kept_elements h xs q (bytes p at shows) keeps =
      elements_ext p q 0 h.write_buf_size (λ k low lt. (rw at at keeps) k (omega arith)) ∙ shows

  write_with_buffered :
      (f : Driver Device → Option (Device → List ℕ → ℤ × Device)) (c : Caller)
      (given : Option (ℕ → ℕ)) (h : Handle Device) (dev : Device) (buf : List ℕ)
      → is_buffered h ≡ true
      → (write_with f c given h dev buf).2 ≡ dev
  unfolding write_with
  write_with_buffered f c given h dev buf buffered = elim (Bool-cases (length buf == 0)) [
    | inl empty ↦ rw (write_with, empty) refl
    | inr some_bytes ↦ elim (Option-cases (callback h f)) [
      | inl missing ↦ rw (write_with, some_bytes, missing) refl
      | inr (send, there) ↦ elim (Bool-cases (permitted c h NodeFlags.write)) [
        | inl allowed ↦ rw (write_with, some_bytes, there, allowed, buffered) refl
        | inr denied ↦ rw (write_with, some_bytes, there, denied) refl
      ]
    ]
  ]

  write-append_buffer :
      (c : Caller) (given : Option (ℕ → ℕ)) (h : Handle Device) (dev : Device) (buf : List ℕ)
      {send : Device → List ℕ → ℤ × Device}
      → 0 < length buf
      → is_buffered h ≡ true
      → callback h Driver.write ≡ some send
      → permitted c h NodeFlags.write ≡ true
      → let (r, h') = append_buffer given h buf in write c given h dev buf ≡ (r, h', dev)
  unfolding write_with
  write-append_buffer c given h dev buf full buffered there allowed =
      let some_bytes : length buf == 0 ≡ false = ground arith in
      simp (some_bytes, there, allowed, buffered) refl

  -- A write of some bytes to a buffered handle, permitted and given storage that keeps what is there,
  -- collects the bytes behind those before, returns their number and leaves the device alone.
  pub write_lem :
      (c : Caller) (q : ℕ → ℕ) (h : Handle Device) (dev : Device) (xs buf : List ℕ)
      (send : Device → List ℕ → ℤ × Device)
      → Collects h xs
      → Keeps h.write_buf q h.write_buf_size
      → 0 < length buf
      → is_buffered h ≡ true
      → callback h Driver.write ≡ some send
      → permitted c h NodeFlags.write ≡ true
      → let (r, h', dev') = write c (some q) h dev buf in
        (r ≡ pos (length buf)) × Collects h' (xs ++ buf) × (dev' ≡ dev)
  unfolding append_buffer
  write_lem c q h dev xs buf send collected keeps full buffered there allowed =
      let e = write-append_buffer c (some q) h dev buf full buffered there allowed in
      let kept : elements q 0 h.write_buf_size ≡ xs = kept_elements h xs q collected keeps in
      let all : elements (lay q h.write_buf_size buf) 0 (h.write_buf_size + length buf)
          ≡ xs ++ buf =
        elements-lay q h.write_buf_size buf ∙ ap (λ ys. ys ++ buf) kept in
      rw e (refl, bytes (lay q h.write_buf_size buf) refl all, refl)

  -- What a buffered handle has collected never reaches the device: a flush empties the buffer and
  -- leaves the device as it was.
  pub flush-loses :
      (c : Caller) (given : Option (ℕ → ℕ)) (h : Handle Device) (dev : Device) (xs : List ℕ)
      (send : Device → List ℕ → ℤ × Device)
      → is_buffered h ≡ true
      → callback h Driver.write ≡ some send
      → Collects h xs
      → 0 < length xs
      → (r : ℤ) × (h' : Handle Device) × (flush c given h dev ≡ some (r, h', dev)) × Collects h' []
  unfolding flush
  flush-loses c given h dev xs send buffered there (nothing bare z e) full =
      absurd (omega (arith, ap length e))
  flush-loses c given h dev xs send buffered there (bytes p at shows) full =
      elim (Option-cases (driver_of h)) [
        | inl missing ↦ absurd (ground (arith, missing, there))
        | inr (d, found) ↦
            let sends : d.write ≡ some send = rw (callback, found) at there in
            let some_bytes : h.write_buf_size == 0 ≡ false =
              ground (arith, ap length shows, length-elements p 0 h.write_buf_size) in
            let (r, h', dev') = write c given h dev (elements p 0 h.write_buf_size) in
            let same : (write c given h dev (elements p 0 h.write_buf_size)).2 ≡ dev =
              write_with_buffered Driver.write c given h dev (elements p 0 h.write_buf_size)
                buffered in
            (
              r,
              record h' { write_buf = none; write_buf_size = 0 },
              simp (buffered, some_bytes, at, found, sends, same) refl,
              nothing refl refl refl,
            )
      ]
