-- ===== src/Crypto.antt =====
-- kernel/crypto.cxx: the ciphers of the kernel.
pub mod Block
pub mod Xtea
pub mod Blowfish
pub mod Rsa
pub mod Arc4
mod Tests
