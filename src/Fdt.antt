-- ===== src/Fdt.antt =====
-- kernel/fdt.cxx: the device tree, in a byte memory.
pub mod Address
pub mod Walk
pub mod Format
pub mod Search
mod Tests
use kinnow_os.Prelude.{
  ℕ, zero, suc, ◌+◌, ◌-◌, ◌*◌, ◌%◌, ◌^◌, Bool, true, false, not, ◌&&◌, Option, none, some, List, [],
  ◌∷◌, leb, ◌==◌, if◌then◌else◌,
}
use kinnow_os.Locale.{is_xdigit, to_upper}

-- The cases of a hexadecimal digit.
abbrev pub hex_digit : ℕ → ℕ
hex_digit ch =
    if leb b'0' ch && leb ch b'9'
    then ch - b'0'
    else if leb b'A' ch && leb ch b'F'
    then ch - b'A' + 10
    else 0

-- The loop of `get_node_address`; the number is a word of 64 bits.
pub address_loop : List ℕ → ℕ → ℕ
address_loop [] num = num
address_loop (c ∷ cs) num =
    let rest = address_loop cs ((num * 16 + hex_digit (to_upper c)) % 2 ^ 64) in
    if is_xdigit (to_upper c) then rest else num

-- `get_node_address` of the name of a node; 0, the null pointer, where the name has no at sign.
pub get_node_address : List ℕ → ℕ
unfolding address_loop
get_node_address [] = 0
get_node_address (c ∷ cs) = if c == b'@' then address_loop cs 0 else get_node_address cs
