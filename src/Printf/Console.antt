-- ===== src/Printf/Console.antt =====
-- kernel/printf.cxx: dputs, kvprintf and kprintf, on RISC-V. Where `g_stdout` is set, its function
-- `write` is given what the device holds and the bytes; else they go to the serial line, converted
-- from the native character set. What either has got is a list of bytes.
mod Prints
mod Tests
use kinnow_os.Prelude.{
  ℕ, zero, suc, ◌+◌, Bool, Option, none, some, List, [], ◌∷◌, ◌++◌, if◌then◌else◌, true, false,
}
use kinnow_os.Prelude.Int.{ℤ, pos, negsuc}
use kinnow_os.Storage.Memory.{Memory}
use kinnow_os.Storage.Text
use kinnow_os.Locale.{native, ascii, convert_text}
use kinnow_os.Mutex.{try_lock, unlock}
use kinnow_os.Printf.Format.{Call, vsnprintf}

pub record Console : Type 0 where
  pub print_lock : ℕ
  pub memory : Memory
  pub out : List ℕ

-- `sizeof(tmpbuf)`
abbrev pub tmpbuf_size : ℕ
tmpbuf_size = 100

-- `error::RESOURCE_BUSY`
abbrev pub resource_busy : ℤ
resource_busy = negsuc 5

-- The `n` bytes from the address `a` on.
unfoldable pub bytes_at : Memory → ℕ → ℕ → List ℕ
bytes_at m a zero = []
bytes_at m a (suc n) = m a ∷ bytes_at m (a + 1) n

-- What has been printed, after the bytes `buf`.
unfoldable pub dputs : Option (List ℕ → List ℕ → List ℕ) → List ℕ → List ℕ → Option (List ℕ)
dputs (some write) out buf = some (write out buf)
dputs none out buf = elim (convert_text native ascii buf) [
  | none ↦ none
  | some text ↦ some (out ++ (text ++ (b'\n' ∷ [])))
]

-- `none` where the fuel does not last.
unfoldable pub kvprintf :
    ℕ → Option (List ℕ → List ℕ → List ℕ) → Call → Console → ℕ → Option Console
kvprintf f g_stdout c con fmt = elim (vsnprintf f c con.memory fmt) [
  | none ↦ none
  | some m ↦ elim (Text.length f m c.s) [
    | none ↦ none
    | some n ↦ elim (dputs g_stdout con.out (bytes_at m c.s n)) [
      | none ↦ none
      | some out ↦ some (record { print_lock = con.print_lock; memory = m; out = out })
    ]
  ]
]

-- Behind the call of kvprintf.
abbrev pub release : Option Console → Option (ℤ × Console)
release none = none
release (some con) = some (pos 0, record con { print_lock = unlock con.print_lock })

-- `kprintf`, with the buffer `c.s` for `tmpbuf`.
unfoldable pub kprintf :
    ℕ → Option (List ℕ → List ℕ → List ℕ) → Call → Console → ℕ → Option (ℤ × Console)
kprintf f g_stdout c con fmt =
    let (taken, lock) = try_lock con.print_lock in
    let printed =
      kvprintf f g_stdout (record c { n = tmpbuf_size }) (record con { print_lock = lock }) fmt in
    if taken then release printed else some (resource_busy, con)
