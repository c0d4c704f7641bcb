-- ===== src/Crc.antt =====
-- `cal_crc_loop_CCITT_A` of _eSSP/lib/Encryption.c, with the seed and polynomial of Encryption.h.
pub mod Laws
use e_ssp.Base.{ℕ, zero, suc, ◌*◌, ◌==◌, if◌then◌else◌, u16, bit_and, bit_xor, List, [], ◌∷◌}

abbrev pub crc_ssp_seed : ℕ
crc_ssp_seed = 0xFFFF

abbrev pub crc_ssp_poly : ℕ
crc_ssp_poly = 0x8005

-- One round of the loop over `j`.
unfoldable pub crc_bit : ℕ → ℕ → ℕ
crc_bit cd crc = if bit_and crc 0x8000 == 0 then u16 (crc * 2) else bit_xor (u16 (crc * 2)) cd

unfoldable pub crc_bits : ℕ → ℕ → ℕ → ℕ
crc_bits cd zero crc = crc
crc_bits cd (suc n) crc = crc_bits cd n (crc_bit cd crc)

-- One round of the loop over `i`.
unfoldable pub crc_byte : ℕ → ℕ → ℕ → ℕ
crc_byte cd crc p = crc_bits cd 8 (bit_xor crc (p * 256))

-- The bytes are `p[0..l)`.
unfoldable pub cal_crc_loop_ccitt_a : List ℕ → ℕ → ℕ → ℕ
unfolding crc_byte crc_bits crc_bit
cal_crc_loop_ccitt_a [] seed cd = seed
cal_crc_loop_ccitt_a (p ∷ ps) seed cd = cal_crc_loop_ccitt_a ps (crc_byte cd seed p) cd

-- The checksum of a packet: every call in the library passes this seed and polynomial.
unfoldable pub ssp_crc : List ℕ → ℕ
unfolding cal_crc_loop_ccitt_a
ssp_crc ps = cal_crc_loop_ccitt_a ps crc_ssp_seed crc_ssp_poly
