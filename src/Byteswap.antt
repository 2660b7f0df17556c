-- ===== src/Byteswap.antt =====
-- kernel/byteswap.hxx: the exchange of the bytes of a number, and the conversions between the order
-- of the machine and a given one. The numbers are below 2 ^ 16, 2 ^ 32 and 2 ^ 64.
mod Order
mod Tests
use kinnow_os.Prelude.{ℕ, ◌*◌, ◌/◌, ◌%◌, ◌^◌, Bool, true, false, ◌==◌, if◌then◌else◌}
use kinnow_os.Words.{bit_and, bit_or}

unfoldable pub bswap16 : ℕ → ℕ
bswap16 x = bit_or (bit_and (x * 2 ^ 8) 0xff00) (bit_and (x / 2 ^ 8) 0x00ff)

unfoldable pub bswap32 : ℕ → ℕ
bswap32 x =
    bit_or
      (bit_or
        (bit_or (bit_and (x * 2 ^ 24 % 2 ^ 32) 0xff000000)
          (bit_and (x * 2 ^ 8 % 2 ^ 32) 0x00ff0000))
        (bit_and (x / 2 ^ 8) 0x0000ff00))
      (bit_and (x / 2 ^ 24) 0x000000ff)

unfoldable pub bswap64 : ℕ → ℕ
bswap64 x =
    bit_or
      (bit_or
        (bit_or
          (bit_or
            (bit_or
              (bit_or
                (bit_or (bit_and (x * 2 ^ 56 % 2 ^ 64) 0xff00000000000000)
                  (bit_and (x * 2 ^ 40 % 2 ^ 64) 0x00ff000000000000))
                (bit_and (x * 2 ^ 24 % 2 ^ 64) 0x0000ff0000000000))
              (bit_and (x * 2 ^ 8 % 2 ^ 64) 0x000000ff00000000))
            (bit_and (x / 2 ^ 8) 0x00000000ff000000))
          (bit_and (x / 2 ^ 24) 0x0000000000ff0000))
        (bit_and (x / 2 ^ 40) 0x000000000000ff00))
      (bit_and (x / 2 ^ 56) 0x00000000000000ff)

-- `bswap16`, `bswap32` or `bswap64` by the size of the type; others are left as they are.
unfoldable pub bswap : ℕ → ℕ → ℕ
bswap size x =
    if size == 2
    then bswap16 x
    else (if size == 4 then bswap32 x else (if size == 8 then bswap64 x else x))

-- `cpu_to_be`, `cpu_to_le`, `be_to_cpu` and `le_to_cpu` of a type of `size` bytes; `little` is
-- whether LITTLE_ENDIAN is defined.
unfoldable pub cpu_to_be : Bool → ℕ → ℕ → ℕ
cpu_to_be little size x = if little then bswap size x else x

unfoldable pub cpu_to_le : Bool → ℕ → ℕ → ℕ
cpu_to_le little size x = if little then x else bswap size x

unfoldable pub be_to_cpu : Bool → ℕ → ℕ → ℕ
be_to_cpu little size x = if little then bswap size x else x

unfoldable pub le_to_cpu : Bool → ℕ → ℕ → ℕ
le_to_cpu little size x = if little then x else bswap size x
