-- ===== src/Disk/Handle.antt =====
-- kernel/vdisk.cxx, virtual_disk::handle. The node of a handle is taken at the time of the call.
-- A buffer is the function from an index to its byte, as the storage of a list; what a
-- reallocation gives is an argument, `none` where it fails.
pub mod Buffer
pub mod Guard
use Prim.Native.Nat.{bit_and}
use kinnow_os.Prelude.{
  ℕ, zero, suc, ◌+◌, Bool, true, false, not, Option, none, some, List, [], ◌∷◌, ◌==◌, if◌then◌else◌,
  length, map,
}
use kinnow_os.Prelude.Int.{ℤ, pos, negsuc, ltb_ℤ}
use kinnow_os.Disk.{Driver, Node, DiskLoc}
use kinnow_os.Disk.NodeFlags
use kinnow_os.Disk.Mode
use kinnow_os.Disk.Perms.{Caller, check_perms}
use kinnow_os.Storage.DynamicList.Contents.{elements}

-- The codes of kernel/errcode.hxx.
abbrev pub unprivileged : ℤ
unprivileged = negsuc 0

abbrev pub allocation : ℤ
allocation = negsuc 1

abbrev pub invalid_setup : ℤ
invalid_setup = negsuc 2

pub record Handle (Device : Type 0) : Type 0 where
  pub node : Option (Node Device)
  pub write_buf : Option (ℕ → ℕ)
  pub write_buf_size : ℕ
  pub flags : ℕ

-- `storage::copy` of the bytes `xs` to the index `i`.
pub lay : (ℕ → ℕ) → ℕ → List ℕ → ℕ → ℕ
lay p i [] = p
lay p i (x ∷ xs) = lay (λ k. if k == i then x else p k) (i + 1) xs

module _ {Device : Type 0} where
  -- The driver of the handle, none if there is no node.
  abbrev pub driver_of : Handle Device → Option (Driver Device)
  driver_of h = elim h.node [ none ↦ none | some n ↦ n.driver ]

  -- `node->check_perms`
  abbrev pub permitted : Caller → Handle Device → ℕ → Bool
  permitted c h req_bits = elim h.node [ none ↦ false | some n ↦ check_perms c n req_bits ]

  -- Is a callback there? A driver without it is `error::INVALID_SETUP`.
  abbrev pub callback : {A : Type 0} → Handle Device → (Driver Device → Option A) → Option A
  callback h f = elim (driver_of h) [ none ↦ none | some d ↦ f d ]

  -- What `write` and `write_disk` do in buffered mode.
  pub append_buffer : Option (ℕ → ℕ) → Handle Device → List ℕ → ℤ × Handle Device
  unfolding lay
  append_buffer none h buf = (allocation, record h { write_buf = none })
  append_buffer (some p) h buf = (
    pos (length buf),
    record h {
      write_buf = some (lay p h.write_buf_size buf);
      write_buf_size = h.write_buf_size + length buf;
    },
  )

  abbrev pub is_buffered : Handle Device → Bool
  is_buffered h = not (bit_and h.flags Mode.buffered == 0)

  pub write_with :
      (Driver Device → Option (Device → List ℕ → ℤ × Device))
      → Caller
      → Option (ℕ → ℕ)
      → Handle Device
      → Device
      → List ℕ
      → ℤ × Handle Device × Device
  write_with f c given h dev buf =
      let buffered = append_buffer given h buf in
      let guarded = λ (send : Device → List ℕ → ℤ × Device).
        if not (permitted c h NodeFlags.write)
        then (unprivileged, h, dev)
        else if is_buffered h
        then (buffered.0, buffered.1, dev)
        else let (r, dev') = send dev buf in (r, h, dev') in
      if length buf == 0
      then (pos 0, h, dev)
      else elim (callback h f) [ none ↦ (invalid_setup, h, dev) | some send ↦ guarded send ]

  abbrev pub write :
      Caller → Option (ℕ → ℕ) → Handle Device → Device → List ℕ → ℤ × Handle Device × Device
  write = write_with Driver.write

  abbrev pub write_disk :
      Caller
      → Option (ℕ → ℕ)
      → Handle Device
      → Device
      → DiskLoc
      → List ℕ
      → ℤ × Handle Device × Device
  write_disk c given h dev loc buf =
      write_with
        (λ d. elim d.write_disk [ none ↦ none | some send ↦ some (λ dev' b. send dev' loc b) ]) c
        given h dev buf

  -- The charset conversion of a text node is between equal charsets on an ASCII machine.
  pub read_with :
      (Driver Device → Option (Device → ℕ → ℤ × List ℕ × Device))
      → Caller
      → Handle Device
      → Device
      → ℕ
      → ℤ × List ℕ × Device
  read_with f c h dev n =
      let guarded = λ (fetch : Device → ℕ → ℤ × List ℕ × Device).
        if not (permitted c h NodeFlags.read) then (unprivileged, [], dev) else fetch dev n in
      if n == 0
      then (pos 0, [], dev)
      else elim (callback h f) [ none ↦ (invalid_setup, [], dev) | some fetch ↦ guarded fetch ]

  abbrev pub read : Caller → Handle Device → Device → ℕ → ℤ × List ℕ × Device
  read = read_with Driver.read

  abbrev pub read_disk : Caller → Handle Device → Device → DiskLoc → ℕ → ℤ × List ℕ × Device
  read_disk c h dev loc n =
      read_with
        (λ d. elim d.read_disk [ none ↦ none | some fetch ↦ some (λ dev' k. fetch dev' loc k) ]) c h
        dev n

  pub vioctl : Caller → Handle Device → Device → ℤ → List ℕ → ℤ × Device
  vioctl c h dev cmd args = elim (callback h Driver.ioctl) [
    | none ↦ (invalid_setup, dev)
    | some control ↦
        if not (permitted c h NodeFlags.write) then (unprivileged, dev) else control dev cmd args
  ]

  -- `none` where the null pointer of the node or of its driver is read.
  pub flush : Caller → Option (ℕ → ℕ) → Handle Device → Device → Option (ℤ × Handle Device × Device)
  flush c given h dev =
      let whole = λ (p : ℕ → ℕ). write c given h dev (elements p 0 h.write_buf_size) in
      let emptied = λ (p : ℕ → ℕ).
        let (r, h', dev') = whole p in
        some (r, record h' { write_buf = none; write_buf_size = 0 }, dev') in
      let flushed : Driver Device → (ℕ → ℕ) → Option (ℤ × Handle Device × Device) =
        λ d p. elim d.write [ none ↦ some (invalid_setup, h, dev) | some send ↦ emptied p ] in
      if not (is_buffered h)
      then some (pos 0, h, dev)
      else if h.write_buf_size == 0
      then some (pos 0, h, dev)
      else elim h.write_buf [
        | none ↦ some (pos 0, h, dev)
        | some p ↦ elim (driver_of h) [ none ↦ none | some d ↦ flushed d p ]
      ]

  -- `handle::open`; `none` for `nullptr`. `given` says whether storage for the handle is given.
  unfoldable pub open_handle : Bool → Node Device → Device → ℕ → Option (Handle Device) × Device
  open_handle given n dev flags =
      let h : Handle Device = record {
        node = some n;
        write_buf = none;
        write_buf_size = 0;
        flags = flags;
      } in
      elim n.driver [
        | none ↦ (none, dev)
        | some d ↦ if not given then (none, dev) else elim d.open_handle [
          | none ↦ (some h, dev)
          | some call ↦
              let (r, dev') = call dev in if ltb_ℤ r (pos 0) then (none, dev') else (some h, dev')
        ]
      ]

  -- `handle::close`; `none` for the null pointer.
  pub close_handle : Option (Handle Device) → Device → ℤ × Device
  close_handle none dev = (pos 0, dev)
  close_handle (some h) dev = elim (driver_of h) [
    | none ↦ (invalid_setup, dev)
    | some d ↦ elim d.close_handle [ none ↦ (pos 0, dev) | some call ↦ call dev ]
  ]
