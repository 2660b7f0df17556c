-- ===== src/Printf/Format.antt =====
-- kernel/printf.cxx: vsnprintf, over a byte memory. The texts of the dictionary are in memory, at the
-- addresses `dict`; the arguments are words of 64 bits, by their number; `junk` is what `numbuf`
-- holds before a conversion. The loops run on fuel, `none` where it runs out.
pub mod Plain
mod Overflow
mod Tests
use kinnow_os.Prelude.{
  ℕ, zero, suc, ◌+◌, ◌-◌, ◌%◌, ◌^◌, Bool, true, false, not, ◌||◌, Option, none, some, List, [], ◌∷◌,
  leb, ltb, ◌==◌, if◌then◌else◌, length,
}
use kinnow_os.Storage.Memory.{Memory, write, copy}
use kinnow_os.Storage.Text
use kinnow_os.Printf.{convert_number}

-- What the calls of vsnprintf have in common: the buffer, its size, and the texts and values that
-- are looked up.
pub record Call : Type 0 where
  pub s : ℕ
  pub n : ℕ
  pub dict : ℕ → ℕ
  pub null_text : ℕ
  pub args : ℕ → ℕ
  pub junk : ℕ → ℕ

-- `n - i`, as a size_t
abbrev pub room : Call → ℕ → ℕ
room c i = (c.n + 2 ^ 64 - i) % 2 ^ 64

abbrev pub truncate : Call → ℕ → ℕ → ℕ
truncate c i len = if leb (room c i) len then room c i else len

-- A word of the dictionary, behind a space.
unfoldable pub put_word : ℕ → Call → Memory → ℕ → ℕ → Option (Memory × ℕ)
put_word fuel c m i idx = elim (Text.length fuel m (c.dict idx)) [
  | none ↦ none
  | some len ↦
      let alen = truncate c i len in
      let m' = if m (c.s + i) == b' ' then m else write m (c.s + i) b' ' in
      let i' = if m (c.s + i) == b' ' then i else i + 1 in
      some (copy m' (c.s + i') (c.dict idx) alen, i' + alen)
]

-- The loop of the conversion `%s`, from the character `j` of the text on.
unfoldable pub put_text : ℕ → Call → ℕ → ℕ → Memory → ℕ → ℕ → Option (Memory × ℕ)
put_text zero c str len m j i = none
put_text (suc f) c str len m j i =
    let next = put_text f c str len (write m (c.s + i) (m (str + j))) (j + 1) (i + 1) in
    let word : Option (Memory × ℕ) = elim (put_word f c m i (m (str + j + 1))) [
      | none ↦ none
      | some (m', i') ↦ put_text f c str len m' (j + 3) i'
    ] in
    if ltb j len then (if m (str + j) == 1 then word else next) else some (m, i)

unfoldable pub convert_text : ℕ → Call → Memory → ℕ → ℕ → Option (Memory × ℕ)
convert_text f c m i arg =
    let str = if arg == 0 then c.null_text else arg in
    elim (Text.length f m str) [
      | none ↦ none
      | some len ↦ put_text f c str (truncate c i len) m 0 i
    ]

-- The bytes of a list, and an end byte.
unfoldable pub put_list : Memory → ℕ → List ℕ → Memory
put_list m a [] = write m a 0
put_list m a (x ∷ xs) = put_list (write m a x) (a + 1) xs

unfoldable pub convert_value : ℕ → Call → Memory → ℕ → ℕ → ℕ → Option (Memory × ℕ)
convert_value f c m i val base = elim (convert_number f c.junk val base true (room c i)) [
  | none ↦ none
  | some text ↦ some (put_list m (c.s + i) text, i + length text)
]

-- `static_cast<unsigned long long>(va_arg(args, signed int))`
abbrev pub extend : ℕ → ℕ
extend w = if ltb (w % 2 ^ 32) (2 ^ 31) then w % 2 ^ 32 else w % 2 ^ 32 + 2 ^ 64 - 2 ^ 32

-- One character of the format and one argument are used up.
abbrev pub used : ℕ → Option (Memory × ℕ) → Option (Memory × ℕ × ℕ × ℕ)
used k none = none
used k (some (m, i)) = some (m, i, 1, k + 1)

-- What stands behind a percent sign: the memory, the index, how many characters of the format and
-- how many arguments are used up.
unfoldable pub convert : ℕ → Call → Memory → ℕ → ℕ → ℕ → Option (Memory × ℕ × ℕ × ℕ)
convert f c m i k char =
    if char == b's'
    then used k (convert_text f c m i (c.args k))
    else (if char == b'c'
        then some (write m (c.s + i) (c.args k % 2 ^ 8), i + 1, 1, k + 1)
        else (if char == b'u'
            then used k (convert_value f c m i (c.args k % 2 ^ 32) 10)
            else (if char == b'i'
                then used k (convert_value f c m i (extend (c.args k)) 10)
                else (if char == b'p'
                    then used k (convert_value f c m i (c.args k) 16)
                    else (if char == b'x'
                        then used k (convert_value f c m i (c.args k % 2 ^ 32) 16)
                        else some (m, i, 0, k))))))

-- Behind the loop: the index is cut, and the end byte written.
unfoldable pub finish : Call → Memory → ℕ → Memory
finish c m i = write m (c.s + (if leb c.n i then (c.n + 2 ^ 64 - 1) % 2 ^ 64 else i)) 0

-- The loop of vsnprintf: the memory behind it.
unfoldable pub format : ℕ → Call → Memory → ℕ → ℕ → ℕ → Option Memory
format zero c m i fmt k = none
format (suc f) c m i fmt k =
    let resume = λ (m' : Memory) (i' fmt' k' : ℕ). format f c (write m' (c.s + i') 0) i' fmt' k' in
    let conversion : Option Memory = elim (convert f c m i k (m (fmt + 1))) [
      | none ↦ none
      | some (m', i', more, k') ↦ resume m' i' (fmt + 1 + more) k'
    ] in
    let word : Option Memory = elim (put_word f c m i (m (fmt + 1))) [
      | none ↦ none
      | some (m', i') ↦ resume m' i' (fmt + 2) k
    ] in
    if m fmt == 0 || not (ltb i ((c.n + 2 ^ 64 - 1) % 2 ^ 64))
    then some (finish c m i)
    else (if m fmt == b'%'
        then conversion
        else (if m fmt == 1 then word else resume (write m (c.s + i) (m fmt)) (i + 1) (fmt + 1) k))

-- `vsnprintf`
unfoldable pub vsnprintf : ℕ → Call → Memory → ℕ → Option Memory
vsnprintf f c m fmt = format f c (write m c.s 0) 0 fmt 0
