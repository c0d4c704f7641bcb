-- ===== src/Aes/Field/Linear.antt =====
-- Multiplication by x and the mixing of columns are linear.
use e_ssp.Base.{
  ℕ, bit_xor, bit_xor-lt, bit_xor_interchange, every, every-true, every-equal, ◌==◌, ltb, ◌<◌, ◌≡◌,
  true, refl, arith, ap, ◌∙◌,
}
use e_ssp.Aes.Field.{gf2_8_field_mult_by_2, mix_byte}

sum_table :
    every 256 (λ a. every 256 (λ b.
      gf2_8_field_mult_by_2 (bit_xor a b)
      == bit_xor (gf2_8_field_mult_by_2 a) (gf2_8_field_mult_by_2 b)))
    ≡ true
unfolding gf2_8_field_mult_by_2
sum_table = refl

pub gf2_8_field_mult_by_2-bit_xor :
    (a b : ℕ)
    → a < 256
    → b < 256
    → gf2_8_field_mult_by_2 (bit_xor a b)
      ≡ bit_xor (gf2_8_field_mult_by_2 a) (gf2_8_field_mult_by_2 b)
gf2_8_field_mult_by_2-bit_xor a b ha hb =
    every-equal 256 (λ y. gf2_8_field_mult_by_2 (bit_xor a y))
      (λ y. bit_xor (gf2_8_field_mult_by_2 a) (gf2_8_field_mult_by_2 y))
      (every-true 256
        (λ x. every 256 (λ y.
          gf2_8_field_mult_by_2 (bit_xor x y)
          == bit_xor (gf2_8_field_mult_by_2 x) (gf2_8_field_mult_by_2 y)))
        sum_table a ha)
      b hb

byte_table : every 256 (λ x. ltb (gf2_8_field_mult_by_2 x) 256) ≡ true
unfolding gf2_8_field_mult_by_2
byte_table = refl

pub gf2_8_field_mult_by_2-lt : (x : ℕ) → x < 256 → gf2_8_field_mult_by_2 x < 256
gf2_8_field_mult_by_2-lt x h =
    let e = every-true 256 (λ y. ltb (gf2_8_field_mult_by_2 y) 256) byte_table x h in ground arith

pub mix_byte-lt : (t a b : ℕ) → t < 256 → a < 256 → b < 256 → mix_byte t a b < 256
unfolding mix_byte
mix_byte-lt t a b ht ha hb =
    let m = gf2_8_field_mult_by_2-lt (bit_xor a b) (bit_xor-lt 8 a b ha hb) in
    bit_xor-lt 8 _ t (bit_xor-lt 8 a _ ha m) ht

pub mix_byte-bit_xor :
    (t a b u c d : ℕ)
    → a < 256
    → b < 256
    → c < 256
    → d < 256
    → mix_byte (bit_xor t u) (bit_xor a c) (bit_xor b d) ≡ bit_xor (mix_byte t a b) (mix_byte u c d)
unfolding mix_byte
mix_byte-bit_xor t a b u c d ha hb hc hd =
    let m : gf2_8_field_mult_by_2 (bit_xor (bit_xor a c) (bit_xor b d))
        ≡ bit_xor (gf2_8_field_mult_by_2 (bit_xor a b)) (gf2_8_field_mult_by_2 (bit_xor c d)) =
      ap gf2_8_field_mult_by_2 (bit_xor_interchange a c b d)
      ∙ gf2_8_field_mult_by_2-bit_xor (bit_xor a b) (bit_xor c d) (bit_xor-lt 8 a b ha hb)
          (bit_xor-lt 8 c d hc hd) in
    ap (λ s. bit_xor (bit_xor (bit_xor a c) s) (bit_xor t u)) m
    ∙ ap (λ s. bit_xor s (bit_xor t u)) (bit_xor_interchange a c _ _)
    ∙ bit_xor_interchange _ _ t u
