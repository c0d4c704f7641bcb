-- ===== src/Aes/Field/Mixed.antt =====
-- A mixed column byte by byte.
use e_ssp.Base.{ℕ, bit_xor, bit_xor-lt, bit_xor_interchange, ◌<◌, ◌≡◌, arith, sym, ap, ◌∙◌, ◌^◌}
use e_ssp.Aes.Word.{xor_bytes, byte_0, byte_1, byte_2, byte_3}
use e_ssp.Aes.Word.Laws.{word, word-lt, bit_xor-word, xor_bytes-word}
use e_ssp.Aes.Field.{mix_byte, forward_mix_col}
use e_ssp.Aes.Field.Linear.{mix_byte-bit_xor, mix_byte-lt}

-- The sum of a column, and the mixed column.
abbrev pub total : ℕ → ℕ → ℕ → ℕ → ℕ
total a b c d = bit_xor (bit_xor (bit_xor a b) c) d

abbrev pub mixed : ℕ → ℕ → ℕ → ℕ → ℕ
mixed a b c d =
    word (mix_byte (total a b c d) a b) (mix_byte (total a b c d) b c)
      (mix_byte (total a b c d) c d) (mix_byte (total a b c d) d a)

total_sum :
    (a b c d p q r s : ℕ)
    → total (bit_xor a p) (bit_xor b q) (bit_xor c r) (bit_xor d s)
      ≡ bit_xor (total a b c d) (total p q r s)
total_sum a b c d p q r s =
    ap (λ t. bit_xor (bit_xor t (bit_xor c r)) (bit_xor d s)) (bit_xor_interchange a p b q)
    ∙ ap (λ t. bit_xor t (bit_xor d s)) (bit_xor_interchange (bit_xor a b) (bit_xor p q) c r)
    ∙ bit_xor_interchange (bit_xor (bit_xor a b) c) (bit_xor (bit_xor p q) r) d s

module _ (a b c d : ℕ) (ha : a < 256) (hb : b < 256) (hc : c < 256) (hd : d < 256) where
  total-lt : total a b c d < 256
  total-lt = bit_xor-lt 8 _ d (bit_xor-lt 8 _ c (bit_xor-lt 8 a b ha hb) hc) hd

  mixed_0-lt : mix_byte (total a b c d) a b < 256
  mixed_0-lt = mix_byte-lt (total a b c d) a b total-lt ha hb

  mixed_1-lt : mix_byte (total a b c d) b c < 256
  mixed_1-lt = mix_byte-lt (total a b c d) b c total-lt hb hc

  mixed_2-lt : mix_byte (total a b c d) c d < 256
  mixed_2-lt = mix_byte-lt (total a b c d) c d total-lt hc hd

  mixed_3-lt : mix_byte (total a b c d) d a < 256
  mixed_3-lt = mix_byte-lt (total a b c d) d a total-lt hd ha

  pub mixed-lt : mixed a b c d < 2 ^ 32
  mixed-lt = word-lt _ _ _ _ mixed_0-lt mixed_1-lt mixed_2-lt mixed_3-lt

  mixed-word :
      xor_bytes
        (mix_byte (total a b c d) a b)
        (mix_byte (total a b c d) b c)
        (mix_byte (total a b c d) c d)
        (mix_byte (total a b c d) d a)
      ≡ mixed a b c d
  mixed-word = xor_bytes-word _ _ _ _ mixed_0-lt mixed_1-lt mixed_2-lt mixed_3-lt

pub forward_mix_col-mixed :
    (w : ℕ) → forward_mix_col w ≡ mixed (byte_0 w) (byte_1 w) (byte_2 w) (byte_3 w)
unfolding forward_mix_col
forward_mix_col-mixed w =
    mixed-word (byte_0 w) (byte_1 w) (byte_2 w) (byte_3 w) (omega arith) (omega arith) (omega arith)
      (omega arith)

pub forward_mix_col-lt : (w : ℕ) → forward_mix_col w < 2 ^ 32
forward_mix_col-lt w = rw (forward_mix_col-mixed w) (
    mixed-lt (byte_0 w) (byte_1 w) (byte_2 w) (byte_3 w) (omega arith) (omega arith) (omega arith)
      (omega arith))

module _ (a b c d p q r s : ℕ) (ha : a < 256) (hb : b < 256) (hc : c < 256) (hd : d < 256)
    (hp : p < 256) (hq : q < 256) (hr : r < 256) (hs : s < 256) where
  pub mixed_sum :
      mixed (bit_xor a p) (bit_xor b q) (bit_xor c r) (bit_xor d s)
      ≡ bit_xor (mixed a b c d) (mixed p q r s)
  mixed_sum =
      let t = total a b c d in
      let u = total p q r s in
      rw
        (
          total_sum a b c d p q r s,
          mix_byte-bit_xor t a b u p q ha hb hp hq,
          mix_byte-bit_xor t b c u q r hb hc hq hr,
          mix_byte-bit_xor t c d u r s hc hd hr hs,
          mix_byte-bit_xor t d a u s p hd ha hs hp,
        )
        (sym (
          bit_xor-word _ _ _ _ _ _ _ _ (mixed_1-lt a b c d ha hb hc hd)
            (mixed_2-lt a b c d ha hb hc hd) (mixed_3-lt a b c d ha hb hc hd)
            (mixed_1-lt p q r s hp hq hr hs) (mixed_2-lt p q r s hp hq hr hs)
            (mixed_3-lt p q r s hp hq hr hs)))
