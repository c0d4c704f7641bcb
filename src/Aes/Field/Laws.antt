-- ===== src/Aes/Field/Laws.antt =====
-- The mixing of columns and its inverse are linear, and the inverse undoes it.
use e_ssp.Base.{
  ℕ, bit_xor, bit_xor-lt, bit_xor_join, every, every-equal, ◌*◌, ◌+◌, ◌==◌, ◌<◌, ◌≡◌, true, refl,
  arith, sym, ap, ap₂, ◌∙◌, ◌^◌,
}
use e_ssp.Aes.Word.{byte_0, byte_1, byte_2, byte_3}
use e_ssp.Aes.Word.Laws.{
  word, word-bytes, bytes-bit_xor, byte_0-word, byte_1-word, byte_2-word, byte_3-word,
}
use e_ssp.Aes.Field.{forward_mix_col, inverse_mix_col}
use e_ssp.Aes.Field.Spread.{spread, spread-lt, spread_sum, inverse_mix_col-spread}
use e_ssp.Aes.Field.Mixed.{mixed, mixed_sum, forward_mix_col-mixed, forward_mix_col-lt}

module _ (a b c d : ℕ) (ha : a < 256) (hb : b < 256) (hc : c < 256) (hd : d < 256) where
  pub forward_mix_col-word : forward_mix_col (word a b c d) ≡ mixed a b c d
  forward_mix_col-word =
      forward_mix_col-mixed (word a b c d)
      ∙ rw
          (
            byte_0-word a b c d ha hb hc hd,
            byte_1-word a b c d ha hb hc hd,
            byte_2-word a b c d ha hb hc hd,
            byte_3-word a b c d ha hb hc hd,
          )
          refl

-- A function of words that keeps exclusive or and the bound.
Linear : (ℕ → ℕ) → Type 0
Linear f = (x y : ℕ) → x < 2 ^ 32 → y < 2 ^ 32 → f (bit_xor x y) ≡ bit_xor (f x) (f y)

forward_mix_col-Linear : Linear forward_mix_col
unfolding Linear
forward_mix_col-Linear x y hx hy =
    ap forward_mix_col (bytes-bit_xor x y hx hy)
    ∙ forward_mix_col-word _ _ _ _ (bit_xor-lt 8 (byte_0 x) (byte_0 y) (omega arith) (omega arith))
        (bit_xor-lt 8 (byte_1 x) (byte_1 y) (omega arith) (omega arith))
        (bit_xor-lt 8 (byte_2 x) (byte_2 y) (omega arith) (omega arith))
        (bit_xor-lt 8 (byte_3 x) (byte_3 y) (omega arith) (omega arith))
    ∙ mixed_sum (byte_0 x) (byte_1 x) (byte_2 x) (byte_3 x) (byte_0 y) (byte_1 y) (byte_2 y)
        (byte_3 y) (omega arith) (omega arith) (omega arith) (omega arith) (omega arith)
        (omega arith) (omega arith) (omega arith)
    ∙ sym (ap₂ bit_xor (forward_mix_col-mixed x) (forward_mix_col-mixed y))

module _ (a b c d : ℕ) (ha : a < 256) (hb : b < 256) (hc : c < 256) (hd : d < 256) where
  inverse_mix_col-word : inverse_mix_col (word a b c d) ≡ forward_mix_col (spread a b c d)
  inverse_mix_col-word =
      inverse_mix_col-spread (word a b c d)
      ∙ rw
          (
            byte_0-word a b c d ha hb hc hd,
            byte_1-word a b c d ha hb hc hd,
            byte_2-word a b c d ha hb hc hd,
            byte_3-word a b c d ha hb hc hd,
          )
          refl

spread_bytes-lt : (w : ℕ) → spread (byte_0 w) (byte_1 w) (byte_2 w) (byte_3 w) < 2 ^ 32
spread_bytes-lt w =
    spread-lt (byte_0 w) (byte_1 w) (byte_2 w) (byte_3 w) (omega arith) (omega arith) (omega arith)
      (omega arith)

inverse_mix_col-Linear : Linear inverse_mix_col
unfolding Linear
inverse_mix_col-Linear x y hx hy =
    ap inverse_mix_col (bytes-bit_xor x y hx hy)
    ∙ inverse_mix_col-word _ _ _ _ (bit_xor-lt 8 (byte_0 x) (byte_0 y) (omega arith) (omega arith))
        (bit_xor-lt 8 (byte_1 x) (byte_1 y) (omega arith) (omega arith))
        (bit_xor-lt 8 (byte_2 x) (byte_2 y) (omega arith) (omega arith))
        (bit_xor-lt 8 (byte_3 x) (byte_3 y) (omega arith) (omega arith))
    ∙ ap forward_mix_col (
        spread_sum (byte_0 x) (byte_1 x) (byte_2 x) (byte_3 x) (byte_0 y) (byte_1 y) (byte_2 y)
          (byte_3 y) (omega arith) (omega arith) (omega arith) (omega arith) (omega arith)
          (omega arith) (omega arith) (omega arith))
    ∙ forward_mix_col-Linear _ _ (spread_bytes-lt x) (spread_bytes-lt y)
    ∙ sym (ap₂ bit_xor (inverse_mix_col-spread x) (inverse_mix_col-spread y))

back : ℕ → ℕ
back w = inverse_mix_col (forward_mix_col w)

back-Linear : Linear back
unfolding Linear back
back-Linear x y hx hy =
    ap inverse_mix_col (forward_mix_col-Linear x y hx hy)
    ∙ inverse_mix_col-Linear _ _ (forward_mix_col-lt x) (forward_mix_col-lt y)

-- Each byte of a column alone is restored, by evaluation.
first_table : every 256 (λ x. back (word x 0 0 0) == word x 0 0 0) ≡ true
unfolding back inverse_mix_col forward_mix_col
first_table = refl

second_table : every 256 (λ x. back (word 0 x 0 0) == word 0 x 0 0) ≡ true
unfolding back inverse_mix_col forward_mix_col
second_table = refl

third_table : every 256 (λ x. back (word 0 0 x 0) == word 0 0 x 0) ≡ true
unfolding back inverse_mix_col forward_mix_col
third_table = refl

fourth_table : every 256 (λ x. back (word 0 0 0 x) == word 0 0 0 x) ≡ true
unfolding back inverse_mix_col forward_mix_col
fourth_table = refl

-- A function that keeps exclusive or keeps a sum of parts that it keeps.
keep_sum :
    (f : ℕ → ℕ)
    → Linear f
    → (x y : ℕ) → x < 2 ^ 32
    → y < 2 ^ 32
    → f x ≡ x
    → f y ≡ y
    → f (bit_xor x y) ≡ bit_xor x y
unfolding Linear
keep_sum f lin x y hx hy ex ey = lin x y hx hy ∙ ap₂ bit_xor ex ey

keep_word :
    (f : ℕ → ℕ)
    → Linear f
    → (a b c d : ℕ) → a < 256
    → b < 256
    → c < 256
    → d < 256
    → f (word a 0 0 0) ≡ word a 0 0 0
    → f (word 0 b 0 0) ≡ word 0 b 0 0
    → f (word 0 0 c 0) ≡ word 0 0 c 0
    → f (word 0 0 0 d) ≡ word 0 0 0 d
    → f (word a b c d) ≡ word a b c d
keep_word f lin a b c d ha hb hc hd ea eb ec ed =
    let two : bit_xor (word a 0 0 0) (word 0 b 0 0) ≡ word a b 0 0 =
      let x : word a 0 0 0 ≡ a * 2 ^ 24 = omega arith in
      ap (λ t. bit_xor t (word 0 b 0 0)) x
      ∙ bit_xor_join 24 a (word 0 b 0 0) (omega arith)
      ∙ omega arith in
    let three : bit_xor (word a b 0 0) (word 0 0 c 0) ≡ word a b c 0 =
      let x : word a b 0 0 ≡ (a * 256 + b) * 2 ^ 16 = omega arith in
      ap (λ t. bit_xor t (word 0 0 c 0)) x
      ∙ bit_xor_join 16 (a * 256 + b) (word 0 0 c 0) (omega arith)
      ∙ omega arith in
    let four : bit_xor (word a b c 0) (word 0 0 0 d) ≡ word a b c d =
      let x : word a b c 0 ≡ ((a * 256 + b) * 256 + c) * 2 ^ 8 = omega arith in
      ap (λ t. bit_xor t (word 0 0 0 d)) x
      ∙ bit_xor_join 8 ((a * 256 + b) * 256 + c) (word 0 0 0 d) (omega arith)
      ∙ omega arith in
    let keep = keep_sum f lin in
    let ab =
      ap f (sym two) ∙ keep (word a 0 0 0) (word 0 b 0 0) (omega arith) (omega arith) ea eb ∙ two in
    let abc =
      ap f (sym three)
      ∙ keep (word a b 0 0) (word 0 0 c 0) (omega arith) (omega arith) ab ec
      ∙ three in
    ap f (sym four) ∙ keep (word a b c 0) (word 0 0 0 d) (omega arith) (omega arith) abc ed ∙ four

-- On 32-bit words the inverse mixing of a column undoes the forward mixing.
pub inverse_mix_col-forward_mix_col : (w : ℕ) → w < 2 ^ 32 → inverse_mix_col (forward_mix_col w) ≡ w
unfolding back
inverse_mix_col-forward_mix_col w h =
    ap back (sym (word-bytes w h))
    ∙ keep_word back back-Linear (byte_0 w) (byte_1 w) (byte_2 w) (byte_3 w) (omega arith)
        (omega arith) (omega arith) (omega arith)
        (every-equal 256 (λ x. back (word x 0 0 0)) (λ x. word x 0 0 0) first_table (byte_0 w)
          (omega arith))
        (every-equal 256 (λ x. back (word 0 x 0 0)) (λ x. word 0 x 0 0) second_table (byte_1 w)
          (omega arith))
        (every-equal 256 (λ x. back (word 0 0 x 0)) (λ x. word 0 0 x 0) third_table (byte_2 w)
          (omega arith))
        (every-equal 256 (λ x. back (word 0 0 0 x)) (λ x. word 0 0 0 x) fourth_table (byte_3 w)
          (omega arith))
    ∙ word-bytes w h
