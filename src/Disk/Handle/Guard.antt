-- ===== src/Disk/Handle/Guard.antt =====
-- What a caller without permission can do.
use kinnow_os.Prelude.{
  ℕ, ◌≡◌, refl, ap, ◌⊎◌, inl, inr, false, Option, none, some, List, ◌==◌, Bool-cases, Option-cases,
  length,
}
use kinnow_os.Prelude.Int.{ℤ, pos}
use kinnow_os.Disk.{Driver, DiskLoc}
use kinnow_os.Disk.NodeFlags
use kinnow_os.Disk.Perms.{Caller}
use kinnow_os.Storage.DynamicList.Contents.{elements}
use kinnow_os.Disk.Handle.{
  Handle, is_buffered, invalid_setup, permitted, callback, driver_of, write, write_disk, read,
  read_disk, vioctl, flush, write_with, read_with,
}

-- A call of an operation on a handle.
pub data Request : Type 0 where
  write_request : List ℕ → Request
  write_disk_request : DiskLoc → List ℕ → Request
  read_request : ℕ → Request
  read_disk_request : DiskLoc → ℕ → Request
  ioctl_request : ℤ → List ℕ → Request
  flush_request : Request

-- The permission that a request needs.
abbrev pub needs : Request → ℕ
needs (read_request n) = NodeFlags.read
needs (read_disk_request loc n) = NodeFlags.read
needs _ = NodeFlags.write

module _ {Device : Type 0} where
  -- The device after a request, `none` for a fault.
  pub perform : Request → Caller → Option (ℕ → ℕ) → Handle Device → Device → Option Device
  perform (write_request buf) c given h dev = some (write c given h dev buf).2
  perform (write_disk_request loc buf) c given h dev = some (write_disk c given h dev loc buf).2
  perform (read_request n) c given h dev = some (read c h dev n).2
  perform (read_disk_request loc n) c given h dev = some (read_disk c h dev loc n).2
  perform (ioctl_request cmd args) c given h dev = some (vioctl c h dev cmd args).1
  perform flush_request c given h dev = elim (flush c given h dev) [
    | none ↦ none
    | some (r, h', dev') ↦ some dev'
  ]

  write_with_denied :
      (f : Driver Device → Option (Device → List ℕ → ℤ × Device)) (c : Caller)
      (given : Option (ℕ → ℕ)) (h : Handle Device) (dev : Device) (buf : List ℕ)
      → permitted c h NodeFlags.write ≡ false
      → (write_with f c given h dev buf).2 ≡ dev
  unfolding write_with
  write_with_denied f c given h dev buf denied = elim (Bool-cases (length buf == 0)) [
    | inl empty ↦ rw (write_with, empty) refl
    | inr some_bytes ↦ elim (Option-cases (callback h f)) [
      | inl missing ↦ rw (write_with, some_bytes, missing) refl
      | inr (send, there) ↦ rw (write_with, some_bytes, there, denied) refl
    ]
  ]

  read_with_denied :
      (f : Driver Device → Option (Device → ℕ → ℤ × List ℕ × Device)) (c : Caller)
      (h : Handle Device) (dev : Device) (n : ℕ)
      → permitted c h NodeFlags.read ≡ false
      → (read_with f c h dev n).2 ≡ dev
  unfolding read_with
  read_with_denied f c h dev n denied = elim (Bool-cases (n == 0)) [
    | inl empty ↦ rw (read_with, empty) refl
    | inr some_bytes ↦ elim (Option-cases (callback h f)) [
      | inl missing ↦ rw (read_with, some_bytes, missing) refl
      | inr (fetch, there) ↦ rw (read_with, some_bytes, there, denied) refl
    ]
  ]

  vioctl_denied :
      (c : Caller) (h : Handle Device) (dev : Device) (cmd : ℤ) (args : List ℕ)
      → permitted c h NodeFlags.write ≡ false
      → (vioctl c h dev cmd args).1 ≡ dev
  unfolding vioctl
  vioctl_denied c h dev cmd args denied = elim (Option-cases (callback h Driver.ioctl)) [
    | inl missing ↦ rw (vioctl, missing) refl
    | inr (control, there) ↦ rw (vioctl, there, denied) refl
  ]

  -- `flush` writes through `write`, or not at all.
  pub flush_cases :
      (c : Caller) (given : Option (ℕ → ℕ)) (h : Handle Device) (dev : Device)
      → ((r : ℤ) × (flush c given h dev ≡ some (r, h, dev)))
        ⊎ ((buf : List ℕ) × let (r, h', dev') = write c given h dev buf in
              flush c given h dev
              ≡ some (r, record h' { write_buf = none; write_buf_size = 0 }, dev'))
        ⊎ ((driver_of h ≡ none) × (flush c given h dev ≡ none))
  unfolding flush
  flush_cases c given h dev = elim (Bool-cases (is_buffered h)) [
    | inr plain ↦ inl (pos 0, simp plain refl)
    | inl buffered ↦ elim (Bool-cases (h.write_buf_size == 0)) [
      | inl nothing ↦ inl (pos 0, simp (buffered, nothing) refl)
      | inr full ↦ elim (Option-cases h.write_buf) [
        | inl bare ↦ inl (pos 0, simp (buffered, full, bare) refl)
        | inr (p, at) ↦ elim (Option-cases (driver_of h)) [
          | inl missing ↦ inr (inr (missing, simp (buffered, full, at, missing) refl))
          | inr (d, there) ↦ elim (Option-cases d.write) [
            | inl mute ↦ inl (invalid_setup, simp (buffered, full, at, there, mute) refl)
            | inr (send, w) ↦
                inr (inl (elements p 0 h.write_buf_size, simp (buffered, full, at, there, w) refl))
          ]
        ]
      ]
    ]
  ]

  -- Without the permission that it needs, a request leaves the device as it was, or it is a flush of
  -- a handle without a driver.
  pub perform-denied :
      (r : Request) (c : Caller) (given : Option (ℕ → ℕ)) (h : Handle Device) (dev : Device)
      → permitted c h (needs r) ≡ false
      → (perform r c given h dev ≡ some dev) ⊎ ((r ≡ flush_request) × (driver_of h ≡ none))
  unfolding perform
  perform-denied (write_request buf) c given h dev denied =
      inl (ap some (write_with_denied Driver.write c given h dev buf denied))
  perform-denied (write_disk_request loc buf) c given h dev denied =
      inl (ap some (write_with_denied _ c given h dev buf denied))
  perform-denied (read_request n) c given h dev denied =
      inl (ap some (read_with_denied Driver.read c h dev n denied))
  perform-denied (read_disk_request loc n) c given h dev denied =
      inl (ap some (read_with_denied _ c h dev n denied))
  perform-denied (ioctl_request cmd args) c given h dev denied =
      inl (ap some (vioctl_denied c h dev cmd args denied))
  perform-denied flush_request c given h dev denied = elim (flush_cases c given h dev) [
    | inl (r, e) ↦ inl (rw (perform, e) refl)
    | inr (inl (buf, e)) ↦
        inl (rw (perform, e) (ap some (write_with_denied Driver.write c given h dev buf denied)))
    | inr (inr (missing, e)) ↦ inr (refl, missing)
  ]
