-- ===== src/Printf/Console/Prints.antt =====
-- What kprintf prints, and when it does not.
use Prim.Native.Nat.{min}
use kinnow_os.Prelude.{
  ℕ, zero, suc, ◌+◌, ◌-◌, ◌^◌, ◌≤◌, ◌<◌, ◌≡◌, ◌⊎◌, refl, sym, ap, ◌∙◌, Option, none, some, List, [],
  ◌∷◌, ◌++◌, arith, false, ◌==◌,
}
use kinnow_os.Prelude.Int.{pos}
use kinnow_os.Storage.Memory.{Memory}
use kinnow_os.Storage.Text
use kinnow_os.Storage.Text.{IsText}
use kinnow_os.Storage.Text.Scan.{length_lem}
use kinnow_os.Locale.{native, ascii, convert_text, convert}
use kinnow_os.Mutex.{try_lock, unlock, locked, unlocked}
use kinnow_os.Printf.Format.{Call}
use kinnow_os.Printf.Format.Plain.{IsPlain, IsApart, vsnprintf-plain}
use kinnow_os.Printf.Console.{
  Console, bytes_at, dputs, kvprintf, kprintf, tmpbuf_size, resource_busy,
}

bytes_at-cong :
    (m m' : Memory) (a b n : ℕ)
    → ((j : ℕ) → j < n → m' (b + j) ≡ m (a + j))
    → bytes_at m' b n ≡ bytes_at m a n
unfolding bytes_at
bytes_at-cong m m' a b zero h = refl
bytes_at-cong m m' a b (suc n) h =
    let head : m' b ≡ m a = ground (arith, h 0) in
    rw (head, bytes_at-cong m m' (a + 1) (b + 1) n (λ j l. ground (arith, h (suc j)))) refl

native-ascii : (text : List ℕ) → convert_text native ascii text ≡ some text
unfolding convert_text convert
native-ascii [] = refl
native-ascii (c ∷ cs) = rw (native-ascii cs) refl

-- What a device or the serial line has got, after the bytes `text`.
unfoldable pub printed : Option (List ℕ → List ℕ → List ℕ) → List ℕ → List ℕ → List ℕ
printed (some write) out text = write out text
printed none out text = out ++ (text ++ (b'\n' ∷ []))

dputs_lem :
    (g_stdout : Option (List ℕ → List ℕ → List ℕ)) (out text : List ℕ)
    → dputs g_stdout out text ≡ some (printed g_stdout out text)
unfolding dputs printed
dputs_lem (some write) out text = refl
dputs_lem none out text = rw (dputs, native-ascii text) refl

module _ (g_stdout : Option (List ℕ → List ℕ → List ℕ)) (c : Call) (some_room : 0 < c.n)
    (size : c.n < 2 ^ 64) where
  kvprintf-plain :
      (f : ℕ) (con : Console) (fmt k : ℕ)
      → IsPlain con.memory fmt k
      → IsApart c some_room size fmt k
      → k < f
      → (con' : Console) × (kvprintf f g_stdout c con fmt ≡ some con')
        × (con'.out ≡ printed g_stdout con.out (bytes_at con.memory fmt (min k (c.n - 1))))
  unfolding kvprintf
  kvprintf-plain f con fmt k p apart fuel =
      let n = min k (c.n - 1) in
      let (m, run, copied, ended, same) =
        vsnprintf-plain c some_room size f con.memory fmt k p apart fuel in
      let len : Text.length f m c.s ≡ some n =
        length_lem m f c.s n
          (record {
            ends = ended;
            goes_on = λ i h e. p.goes_on i (omega arith) (sym (copied i h) ∙ e);
          })
          (omega arith) in
      let text = bytes_at-cong con.memory m fmt c.s n copied in
      (
        record {
          print_lock = con.print_lock;
          memory = m;
          out = printed g_stdout con.out (bytes_at con.memory fmt n);
        },
        rw (kvprintf, run, len, text, dputs_lem g_stdout con.out (bytes_at con.memory fmt n)) refl,
        refl,
      )

-- With a free lock, kprintf returns 0, prints the first 99 characters of a format without a percent
-- sign and without a byte 1, and frees the lock; the same call while the lock is held returns
-- RESOURCE_BUSY and changes nothing. The format is apart from the buffer, and there is fuel for its
-- characters.
pub kprintf-plain :
    (g_stdout : Option (List ℕ → List ℕ → List ℕ)) (c : Call) (f : ℕ) (con : Console) (fmt k : ℕ)
    → IsPlain con.memory fmt k
    → (fmt + k < c.s) ⊎ (c.s + tmpbuf_size ≤ fmt)
    → k < f
    → con.print_lock ≡ unlocked
    → ((con' : Console) × (kprintf f g_stdout c con fmt ≡ some (pos 0, con'))
        × (con'.out ≡ printed g_stdout con.out (bytes_at con.memory fmt (min k 99)))
        × (con'.print_lock ≡ unlocked))
      × (kprintf f g_stdout c (record con { print_lock = locked }) fmt
          ≡ some (resource_busy, record con { print_lock = locked }))
unfolding kprintf try_lock unlock
kprintf-plain g_stdout c f con fmt k p apart fuel free =
    let (con', run, out) =
      kvprintf-plain g_stdout (record c { n = tmpbuf_size }) (omega arith) (omega arith) f
        (record con { print_lock = locked }) fmt k p apart fuel in
    let open_ : (con.print_lock == locked) ≡ false = ap (λ l. l == locked) free in
    ((record con' { print_lock = unlocked }, rw (open_, run) refl, out, refl), refl)
