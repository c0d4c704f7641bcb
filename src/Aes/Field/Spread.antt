-- ===== src/Aes/Field/Spread.antt =====
-- The word that `inverse_mix_col` mixes forward, byte by byte.
use e_ssp.Base.{ℕ, bit_xor, bit_xor-lt, bit_xor_interchange, ◌<◌, ◌≡◌, arith, sym, ap, ◌∙◌, ◌^◌}
use e_ssp.Aes.Word.{xor_bytes, byte_0, byte_1, byte_2, byte_3}
use e_ssp.Aes.Word.Laws.{word, word-lt, bit_xor-word, xor_bytes-word}
use e_ssp.Aes.Field.{gf2_8_field_mult_by_2, forward_mix_col, inverse_mix_col}
use e_ssp.Aes.Field.Linear.{gf2_8_field_mult_by_2-bit_xor, gf2_8_field_mult_by_2-lt}

unfoldable pub fourfold : ℕ → ℕ → ℕ
fourfold a b = gf2_8_field_mult_by_2 (gf2_8_field_mult_by_2 (bit_xor a b))

abbrev pub spread : ℕ → ℕ → ℕ → ℕ → ℕ
spread a b c d =
    word (bit_xor a (fourfold a c)) (bit_xor b (fourfold b d)) (bit_xor c (fourfold a c))
      (bit_xor d (fourfold b d))

fourfold-lt : (a b : ℕ) → a < 256 → b < 256 → fourfold a b < 256
unfolding fourfold
fourfold-lt a b ha hb =
    gf2_8_field_mult_by_2-lt _ (gf2_8_field_mult_by_2-lt _ (bit_xor-lt 8 a b ha hb))

fourfold_sum :
    (a b c d : ℕ)
    → a < 256
    → b < 256
    → c < 256
    → d < 256
    → fourfold (bit_xor a c) (bit_xor b d) ≡ bit_xor (fourfold a b) (fourfold c d)
unfolding fourfold
fourfold_sum a b c d ha hb hc hd =
    ap (λ t. gf2_8_field_mult_by_2 (gf2_8_field_mult_by_2 t)) (bit_xor_interchange a c b d)
    ∙ ap gf2_8_field_mult_by_2 (
        gf2_8_field_mult_by_2-bit_xor (bit_xor a b) (bit_xor c d) (bit_xor-lt 8 a b ha hb)
          (bit_xor-lt 8 c d hc hd))
    ∙ gf2_8_field_mult_by_2-bit_xor _ _ (gf2_8_field_mult_by_2-lt _ (bit_xor-lt 8 a b ha hb))
        (gf2_8_field_mult_by_2-lt _ (bit_xor-lt 8 c d hc hd))

module _ (a b c d : ℕ) (ha : a < 256) (hb : b < 256) (hc : c < 256) (hd : d < 256) where
  spread_0-lt : bit_xor a (fourfold a c) < 256
  spread_0-lt = bit_xor-lt 8 a _ ha (fourfold-lt a c ha hc)

  spread_1-lt : bit_xor b (fourfold b d) < 256
  spread_1-lt = bit_xor-lt 8 b _ hb (fourfold-lt b d hb hd)

  spread_2-lt : bit_xor c (fourfold a c) < 256
  spread_2-lt = bit_xor-lt 8 c _ hc (fourfold-lt a c ha hc)

  spread_3-lt : bit_xor d (fourfold b d) < 256
  spread_3-lt = bit_xor-lt 8 d _ hd (fourfold-lt b d hb hd)

  pub spread-lt : spread a b c d < 2 ^ 32
  spread-lt = word-lt _ _ _ _ spread_0-lt spread_1-lt spread_2-lt spread_3-lt

  spread-word :
      xor_bytes
        (bit_xor a (fourfold a c))
        (bit_xor b (fourfold b d))
        (bit_xor c (fourfold a c))
        (bit_xor d (fourfold b d))
      ≡ spread a b c d
  spread-word = xor_bytes-word _ _ _ _ spread_0-lt spread_1-lt spread_2-lt spread_3-lt

pub inverse_mix_col-spread :
    (w : ℕ)
    → inverse_mix_col w ≡ forward_mix_col (spread (byte_0 w) (byte_1 w) (byte_2 w) (byte_3 w))
unfolding inverse_mix_col fourfold
inverse_mix_col-spread w = ap forward_mix_col (
    spread-word (byte_0 w) (byte_1 w) (byte_2 w) (byte_3 w) (omega arith) (omega arith)
      (omega arith) (omega arith))

module _ (a b c d p q r s : ℕ) (ha : a < 256) (hb : b < 256) (hc : c < 256) (hd : d < 256)
    (hp : p < 256) (hq : q < 256) (hr : r < 256) (hs : s < 256) where
  pub spread_sum :
      spread (bit_xor a p) (bit_xor b q) (bit_xor c r) (bit_xor d s)
      ≡ bit_xor (spread a b c d) (spread p q r s)
  spread_sum =
      let f = fourfold a c in
      let g = fourfold p r in
      let h = fourfold b d in
      let k = fourfold q s in
      rw
        (
          fourfold_sum a c p r ha hc hp hr,
          fourfold_sum b d q s hb hd hq hs,
          bit_xor_interchange a p f g,
          bit_xor_interchange b q h k,
          bit_xor_interchange c r f g,
          bit_xor_interchange d s h k,
        )
        (sym (
          bit_xor-word _ _ _ _ _ _ _ _ (spread_1-lt a b c d ha hb hc hd)
            (spread_2-lt a b c d ha hb hc hd) (spread_3-lt a b c d ha hb hc hd)
            (spread_1-lt p q r s hp hq hr hs) (spread_2-lt p q r s hp hq hr hs)
            (spread_3-lt p q r s hp hq hr hs)))
