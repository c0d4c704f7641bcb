-- ===== src/Crc/Laws.antt =====
-- Laws of `cal_crc_loop_CCITT_A`.
use e_ssp.Base.{
  ℕ, zero, suc, ◌*◌, ◌%◌, ◌^◌, ◌<◌, u16, bit_and_top, bit_xor-lt, bit_xor_cancel,
  bit_xor_cancel_left, bit_xor_parity, List, [], ◌∷◌, ◌++◌, All, IsByte, ◌≡◌, ◌≢◌, refl, sym, arith,
  ◌∙◌,
}
use e_ssp.Crc.{
  crc_bit, crc_bits, crc_byte, cal_crc_loop_ccitt_a, ssp_crc, crc_ssp_seed, crc_ssp_poly,
}

crc_bit-lt : (cd crc : ℕ) → cd < 2 ^ 16 → crc_bit cd crc < 2 ^ 16
unfolding crc_bit
crc_bit-lt cd crc h = ground (arith, bit_xor-lt 16 (u16 (crc * 2)) cd)

crc_bits-lt : (cd n crc : ℕ) → cd < 2 ^ 16 → crc < 2 ^ 16 → crc_bits cd n crc < 2 ^ 16
unfolding crc_bits
crc_bits-lt cd zero crc h k = k
crc_bits-lt cd (suc n) crc h k = crc_bits-lt cd n (crc_bit cd crc) h (crc_bit-lt cd crc h)

crc_byte-lt : (cd crc p : ℕ) → cd < 2 ^ 16 → crc < 2 ^ 16 → IsByte p → crc_byte cd crc p < 2 ^ 16
unfolding crc_byte
crc_byte-lt cd crc p h k b = crc_bits-lt cd 8 _ h (bit_xor-lt 16 crc (p * 256) k (omega arith))

pub cal_crc-lt :
    (ps : List ℕ) (seed cd : ℕ)
    → All IsByte ps
    → cd < 2 ^ 16
    → seed < 2 ^ 16
    → cal_crc_loop_ccitt_a ps seed cd < 2 ^ 16
unfolding cal_crc_loop_ccitt_a
cal_crc-lt [] seed cd bytes h k = k
cal_crc-lt (p ∷ ps) seed cd bytes h k =
    cal_crc-lt ps (crc_byte cd seed p) cd bytes.1 h (crc_byte-lt cd seed p h k bytes.0)

pub cal_crc-append :
    (ps qs : List ℕ) (seed cd : ℕ)
    → cal_crc_loop_ccitt_a (ps ++ qs) seed cd
      ≡ cal_crc_loop_ccitt_a qs (cal_crc_loop_ccitt_a ps seed cd) cd
unfolding cal_crc_loop_ccitt_a
cal_crc-append [] qs seed cd = refl
cal_crc-append (p ∷ ps) qs seed cd = cal_crc-append ps qs (crc_byte cd seed p) cd

-- With an odd polynomial a round loses nothing: the lowest bit of the result tells the bit that
-- was shifted out.
crc_bit_injective :
    (cd a b : ℕ) → cd % 2 ≡ 1 → a < 2 ^ 16 → b < 2 ^ 16 → crc_bit cd a ≡ crc_bit cd b → a ≡ b
unfolding crc_bit
crc_bit_injective cd a b odd p q e = ground (
  arith,
  bit_and_top a,
  bit_and_top b,
  bit_xor_parity (u16 (a * 2)) cd,
  bit_xor_parity (u16 (b * 2)) cd,
  bit_xor_cancel (u16 (a * 2)) (u16 (b * 2)) cd,
)

module _ (cd : ℕ) (odd : cd % 2 ≡ 1) (fits : cd < 2 ^ 16) where
  crc_bits_injective :
      (n a b : ℕ) → a < 2 ^ 16 → b < 2 ^ 16 → crc_bits cd n a ≡ crc_bits cd n b → a ≡ b
  unfolding crc_bits
  crc_bits_injective zero a b p q e = e
  crc_bits_injective (suc n) a b p q e = crc_bit_injective cd a b odd p q (
      crc_bits_injective n (crc_bit cd a) (crc_bit cd b) (crc_bit-lt cd a fits)
        (crc_bit-lt cd b fits) e)

  -- The same bytes keep two different checksums apart.
  cal_crc_seed_injective :
      (ps : List ℕ) (s t : ℕ)
      → All IsByte ps
      → s < 2 ^ 16
      → t < 2 ^ 16
      → cal_crc_loop_ccitt_a ps s cd ≡ cal_crc_loop_ccitt_a ps t cd
      → s ≡ t
  unfolding cal_crc_loop_ccitt_a crc_byte
  cal_crc_seed_injective [] s t bytes p q e = e
  cal_crc_seed_injective (x ∷ ps) s t bytes p q e = bit_xor_cancel s t (x * 256) (
      crc_bits_injective 8 _ _ (bit_xor-lt 16 s (x * 256) p (omega arith))
        (bit_xor-lt 16 t (x * 256) q (omega arith))
        (cal_crc_seed_injective ps _ _ bytes.1 (crc_byte-lt cd s x fits p bytes.0)
          (crc_byte-lt cd t x fits q bytes.0) e))

-- The checksum of two messages of bytes that differ in exactly one byte is different, whatever
-- stands before and after that byte.
pub ssp_crc_single_error :
    (before after : List ℕ) (a b : ℕ)
    → All IsByte before
    → All IsByte after
    → IsByte a
    → IsByte b
    → a ≢ b
    → ssp_crc (before ++ a ∷ after) ≢ ssp_crc (before ++ b ∷ after)
unfolding ssp_crc cal_crc_loop_ccitt_a crc_byte
ssp_crc_single_error before after a b hb ha pa pb ne e =
    let s = cal_crc_loop_ccitt_a before crc_ssp_seed crc_ssp_poly in
    let s_fits : s < 2 ^ 16 = cal_crc-lt before _ crc_ssp_poly hb (omega arith) (omega arith) in
    let at_byte =
      sym (cal_crc-append before (a ∷ after) crc_ssp_seed crc_ssp_poly)
      ∙ e
      ∙ cal_crc-append before (b ∷ after) crc_ssp_seed crc_ssp_poly in
    let after_byte =
      cal_crc_seed_injective crc_ssp_poly (omega arith) (omega arith) after _ _ ha
        (crc_byte-lt crc_ssp_poly s a (omega arith) s_fits pa)
        (crc_byte-lt crc_ssp_poly s b (omega arith) s_fits pb) at_byte in
    let shifted : a * 256 ≡ b * 256 = bit_xor_cancel_left _ _ s (
      crc_bits_injective crc_ssp_poly (omega arith) (omega arith) 8 _ _
        (bit_xor-lt 16 s (a * 256) s_fits (omega arith))
        (bit_xor-lt 16 s (b * 256) s_fits (omega arith)) after_byte) in
    ne (omega arith)
