-- ===== src/Aes.antt =====
-- The block functions of _eSSP/lib/Encryption.c: words, the field of 256 elements, the S-boxes, and
-- the rounds on a block of 16 bytes.
pub mod Word
pub mod Field
pub mod Sbox
pub mod Block
pub mod Ecb
pub mod Fips
