-- ===== src/Aes/Field.antt =====
-- Multiplication by x in the field of 256 elements and the column mixing of _eSSP/lib/Encryption.c.
pub mod Linear
pub mod Mixed
pub mod Spread
pub mod Laws
use e_ssp.Base.{ℕ, ◌*◌, bit_and, bit_xor, u8, ◌==◌, if◌then◌else◌}
use e_ssp.Aes.Word.{byte_0, byte_1, byte_2, byte_3, xor_bytes}

abbrev pub gf2_8_field_polynomial : ℕ
gf2_8_field_polynomial = 0x1B

unfoldable pub gf2_8_field_mult_by_2 : ℕ → ℕ
gf2_8_field_mult_by_2 a =
    let r0 = u8 (a * 2) in if bit_and a 0x80 == 0 then r0 else bit_xor r0 gf2_8_field_polynomial

-- One byte of a mixed column: `a[i] ^ x*(a[i] ^ a[i+1]) ^ t`.
unfoldable pub mix_byte : ℕ → ℕ → ℕ → ℕ
unfolding gf2_8_field_mult_by_2
mix_byte t a b = bit_xor (bit_xor a (gf2_8_field_mult_by_2 (bit_xor a b))) t

unfoldable pub forward_mix_col : ℕ → ℕ
unfolding mix_byte xor_bytes
forward_mix_col w =
    let t = bit_xor (bit_xor (bit_xor (byte_0 w) (byte_1 w)) (byte_2 w)) (byte_3 w) in
    xor_bytes (mix_byte t (byte_0 w) (byte_1 w)) (mix_byte t (byte_1 w) (byte_2 w))
      (mix_byte t (byte_2 w) (byte_3 w)) (mix_byte t (byte_3 w) (byte_0 w))

unfoldable pub inverse_mix_col : ℕ → ℕ
unfolding gf2_8_field_mult_by_2 xor_bytes forward_mix_col
inverse_mix_col w =
    let u = gf2_8_field_mult_by_2 (gf2_8_field_mult_by_2 (bit_xor (byte_0 w) (byte_2 w))) in
    let v = gf2_8_field_mult_by_2 (gf2_8_field_mult_by_2 (bit_xor (byte_1 w) (byte_3 w))) in
    forward_mix_col (
      xor_bytes (bit_xor (byte_0 w) u) (bit_xor (byte_1 w) v) (bit_xor (byte_2 w) u)
        (bit_xor (byte_3 w) v))
