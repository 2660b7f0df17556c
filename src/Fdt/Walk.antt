-- ===== src/Fdt/Walk.antt =====
-- kernel/fdt.cxx and kernel/fdt.hxx: the walk over the tokens of a device tree. The structure, the
-- header and the strings stand in one byte memory; on fuel, `none` where it runs out.
pub mod Property
pub mod Tree
use kinnow_os.Prelude.{
  ℕ, zero, suc, ◌+◌, ◌-◌, ◌*◌, ◌%◌, ◌^◌, Bool, true, false, Option, none, some, ◌==◌, if◌then◌else◌,
}
use kinnow_os.Prelude.Int.{is_zero}
use kinnow_os.Storage.Memory.{Memory}
use kinnow_os.Storage.Text

-- `be_to_cpu32` of the word at an address.
unfoldable pub word_at : Memory → ℕ → ℕ
word_at m a = m a * 2 ^ 24 + m (a + 1) * 2 ^ 16 + m (a + 2) * 2 ^ 8 + m (a + 3)

abbrev pub begin_node : ℕ
begin_node = 0x01

abbrev pub end_node : ℕ
end_node = 0x02

abbrev pub prop : ℕ
prop = 0x03

abbrev pub end : ℕ
end = 0x09

unfoldable pub padding : ℕ → ℕ
padding a = let rem = a % 4 in if rem == 0 then a else a + 4 - rem

-- The address of the name of the property entry at `p`, by way of the header at `hdr`.
unfoldable pub key_of : Memory → ℕ → ℕ → ℕ
unfolding word_at
key_of m hdr p = hdr + word_at m (hdr + 12) + word_at m (p + 4)

-- The entry behind that at `p`: its two words and its data.
unfoldable pub behind_prop : Memory → ℕ → ℕ
unfolding padding word_at
behind_prop m p = padding (p + 8 + word_at m p)

pub get_prop : ℕ → Memory → ℕ → ℕ → ℕ → Option (Option ℕ)
unfolding word_at padding key_of behind_prop
get_prop zero m hdr off key = none
get_prop (suc fuel) m hdr off key =
    let token = word_at m off in
    let p = off + 4 in
    let again = λ (a : ℕ). get_prop fuel m hdr a key in
    if token == begin_node
    then elim (Text.length fuel m p) [ none ↦ none | some n ↦ again (padding (p + n)) ]
    else if token == end_node
    then some none
    else if token == prop
    then elim (Text.compare fuel m (key_of m hdr p) key) [
      | none ↦ none
      | some r ↦ if is_zero r then some (some p) else again (behind_prop m p)
    ]
    else if token == end
    then some none
    else again p

abbrev pub get_prop_value : ℕ → ℕ
get_prop_value p = p + 8

pub get_prop_size : Memory → ℕ → ℕ
unfolding word_at
get_prop_size m p = word_at m p
