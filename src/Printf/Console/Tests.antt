-- ===== src/Printf/Console/Tests.antt =====
-- Instances of the theorems about kprintf at concrete inputs.
use Prim.Native.Nat.{min}
use kinnow_os.Prelude.{◌≡◌, refl, inl, none, some, [], ◌∷◌, arith, get_or}
use kinnow_os.Prelude.Int.{pos}
use kinnow_os.Storage.Memory.{Memory}
use kinnow_os.Mutex.{locked, unlocked}
use kinnow_os.Printf.Format.{Call}
use kinnow_os.Printf.Format.Plain.{IsPlain}
use kinnow_os.Printf.Console.{Console, bytes_at, kprintf, resource_busy}
use kinnow_os.Printf.Console.Prints.{printed, kprintf-plain}

-- "Hi" at 0, and other bytes behind it.
abbrev storage : Memory
storage a = get_or (b'H' ∷ b'i' ∷ 0 ∷ []) a 7

abbrev buffer : Call
buffer = record { s = 10; n = 0; dict = λ i. 0; null_text = 0; args = λ k. 0; junk = λ i. 0 }

abbrev console : Console
console = record { print_lock = unlocked; memory = storage; out = b'>' ∷ [] }

hi-IsPlain : IsPlain storage 0 2
hi-IsPlain = record {
  ends = refl;
  goes_on = λ i h. grind arith;
  no_percent = λ i h. grind arith;
  no_word = λ i h. grind arith;
}

hi_printed : printed none (b'>' ∷ []) (bytes_at storage 0 2) ≡ b'>' ∷ b'H' ∷ b'i' ∷ b'\n' ∷ []
unfolding printed bytes_at
hi_printed = refl

-- On the serial line.
kprintf-plain_example :
    ((con' : Console) × (kprintf 3 none buffer console 0 ≡ some (pos 0, con'))
      × (con'.out ≡ printed none (b'>' ∷ []) (bytes_at storage 0 (min 2 99)))
      × (con'.print_lock ≡ unlocked))
    × (kprintf 3 none buffer (record console { print_lock = locked }) 0
        ≡ some (resource_busy, record console { print_lock = locked }))
kprintf-plain_example =
    kprintf-plain none buffer 3 console 0 2 hi-IsPlain (inl (omega arith)) (omega arith) refl
