-- ===== src/Libio.antt =====
-- sys/libio: the C library of the user programs. Classes of characters, numbers and their texts, and
-- the functions on strings.
pub mod Ctype
pub mod Number
pub mod Environ
pub mod Strings
mod Tests
