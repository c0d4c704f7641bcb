-- ===== src/Aes/Word.antt =====
-- The macros of _eSSP/lib/Encryption.c between bytes and 32-bit words.
pub mod Laws
use e_ssp.Base.{item, ℕ, zero, suc, ◌*◌, ◌+◌, ◌/◌, ◌^◌, bit_or, bit_xor, u8, u32, List, [], ◌∷◌}

-- `x << 24` and so on, of a byte, as a 32-bit word.
abbrev pub shl : ℕ → ℕ → ℕ
shl x k = u32 (x * 2 ^ k)

unfoldable pub concat_4_bytes : List ℕ → ℕ → ℕ
concat_4_bytes w8 i =
    bit_or
      (bit_or (bit_or (shl (item w8 i) 24) (shl (item w8 (i + 1)) 16)) (shl (item w8 (i + 2)) 8))
      (item w8 (i + 3))

abbrev pub byte_0 : ℕ → ℕ
byte_0 w = u8 (w / 2 ^ 24)

abbrev pub byte_1 : ℕ → ℕ
byte_1 w = u8 (w / 2 ^ 16)

abbrev pub byte_2 : ℕ → ℕ
byte_2 w = u8 (w / 2 ^ 8)

abbrev pub byte_3 : ℕ → ℕ
byte_3 w = u8 w

unfoldable pub split_into_4_bytes : ℕ → List ℕ
split_into_4_bytes w = u8 (w / 2 ^ 24) ∷ u8 (w / 2 ^ 16) ∷ u8 (w / 2 ^ 8) ∷ u8 w ∷ []

-- The exclusive or of four bytes shifted to their places, which the rounds write out.
unfoldable pub xor_bytes : ℕ → ℕ → ℕ → ℕ → ℕ
xor_bytes a b c d = bit_xor (bit_xor (bit_xor (shl a 24) (shl b 16)) (shl c 8)) d
