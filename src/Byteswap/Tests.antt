-- ===== src/Byteswap/Tests.antt =====
-- Conversions at concrete inputs, and instances of the theorems.
use mathlib.Core.List.{reverse}
use kinnow_os.Prelude.{◌≡◌, refl, inl, inr, true, arith}
use kinnow_os.Byteswap.{bswap32, bswap64, cpu_to_be, cpu_to_le}
use kinnow_os.Byteswap.Order.{bytes, stored, stored-cpu_to}

swapped : bswap32 0x12345678 ≡ 0x78563412
unfolding bswap32
swapped = refl

swapped_long : bswap64 0x0123456789abcdef ≡ 0xefcdab8967452301
unfolding bswap64
swapped_long = refl

stored-cpu_to_example :
    (stored true 4 (cpu_to_be true 4 0x12345678) ≡ reverse (bytes 4 0x12345678))
    × (stored true 4 (cpu_to_le true 4 0x12345678) ≡ bytes 4 0x12345678)
stored-cpu_to_example = stored-cpu_to true 4 0x12345678 (inr (inl refl)) (omega arith)
