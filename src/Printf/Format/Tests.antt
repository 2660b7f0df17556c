-- ===== src/Printf/Format/Tests.antt =====
-- Instances of the theorems about vsnprintf at concrete inputs.
use kinnow_os.Prelude.{◌≡◌, inl, refl, some, [], ◌∷◌, arith, get_or}
use kinnow_os.Storage.Memory.{Memory}
use kinnow_os.Printf.Format.{Call, vsnprintf}
use kinnow_os.Printf.Format.Overflow.{IsStringCall, Prints, vsnprintf-string}

-- "%s" and "Hi" at 0 and 3, and other bytes behind them.
abbrev storage : Memory
storage a = get_or (b'%' ∷ b's' ∷ 0 ∷ b'H' ∷ b'i' ∷ 0 ∷ []) a 7

-- A buffer of two bytes at 10; the argument is the text at 3.
abbrev call : Call
call = record { s = 10; n = 2; dict = λ idx. 0; null_text = 0; args = λ k. 3; junk = λ i. 0 }

percent_s : IsStringCall call 3 storage 0 2
percent_s = record {
  percent = refl;
  letter = refl;
  ends = refl;
  fmt_apart = inl (omega arith);
  arg = refl;
  present = λ e. omega arith;
  text = record { ends = refl; goes_on = λ i h. grind arith };
  no_word = λ i h. grind arith;
  apart = inl (omega arith);
}

-- The text "Hi" in a buffer of two bytes: the byte behind the buffer becomes 0.
vsnprintf-string_example :
    (m' : Memory) × (vsnprintf 4 call storage 0 ≡ some m') × Prints call 3 storage m' 2
vsnprintf-string_example =
    vsnprintf-string call 3 3 storage 0 2 percent_s (omega arith) (omega arith) (omega arith)
