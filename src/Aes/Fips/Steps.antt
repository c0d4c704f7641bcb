-- ===== src/Aes/Fips/Steps.antt =====
-- The bytes of the steps of FIPS 197 and of the code.
use e_ssp.Base.{
  ℕ, ◌<◌, bit_xor, bit_xor_assoc, bit_xor_comm, bit_xor_interchange, bit_xor_undo, zero-bit_xor,
  every, every-equal, ◌==◌, true, ◌≡◌, refl, sym, ap, ap₂, ◌∙◌,
}
use e_ssp.Aes.Field.{gf2_8_field_mult_by_2, mix_byte}
use e_ssp.Aes.Field.Linear.{gf2_8_field_mult_by_2-bit_xor}
use e_ssp.Aes.Field.Mixed.{total}
use e_ssp.Aes.Sbox.{forward_s_box_compute}
use e_ssp.Aes.Fips.{multiply, sub_byte}

sub_table : every 256 (λ x. forward_s_box_compute x == sub_byte x) ≡ true
unfolding forward_s_box_compute sub_byte
sub_table = refl

pub forward_s_box_compute-sub_byte : (x : ℕ) → x < 256 → forward_s_box_compute x ≡ sub_byte x
forward_s_box_compute-sub_byte = every-equal 256 forward_s_box_compute sub_byte sub_table

double_table : every 256 (λ x. gf2_8_field_mult_by_2 x == multiply 8 x 2) ≡ true
unfolding gf2_8_field_mult_by_2 multiply
double_table = refl

pub double : (x : ℕ) → x < 256 → gf2_8_field_mult_by_2 x ≡ multiply 8 x 2
double = every-equal 256 gf2_8_field_mult_by_2 (λ x. multiply 8 x 2) double_table

triple_table : every 256 (λ x. bit_xor (gf2_8_field_mult_by_2 x) x == multiply 8 x 3) ≡ true
unfolding gf2_8_field_mult_by_2 multiply
triple_table = refl

pub triple : (x : ℕ) → x < 256 → bit_xor (gf2_8_field_mult_by_2 x) x ≡ multiply 8 x 3
triple =
    every-equal 256 (λ x. bit_xor (gf2_8_field_mult_by_2 x) x) (λ x. multiply 8 x 3) triple_table

bit_xor_self : (a : ℕ) → bit_xor a a ≡ 0
bit_xor_self a = ap (λ t. bit_xor t a) (sym (zero-bit_xor a)) ∙ bit_xor_undo 0 a

-- What is added twice falls out.
absorbed :
    (a p q b c d : ℕ)
    → bit_xor (bit_xor a (bit_xor p q)) (total a b c d)
      ≡ bit_xor (bit_xor (bit_xor p (bit_xor q b)) c) d
absorbed a p q b c d =
    let y = bit_xor b (bit_xor c d) in
    let sum : total a b c d ≡ bit_xor a y =
      bit_xor_assoc (bit_xor a b) c d ∙ bit_xor_assoc a b (bit_xor c d) in
    ap (bit_xor (bit_xor a (bit_xor p q))) sum
    ∙ bit_xor_interchange a (bit_xor p q) a y
    ∙ ap (λ t. bit_xor t (bit_xor (bit_xor p q) y)) (bit_xor_self a)
    ∙ zero-bit_xor (bit_xor (bit_xor p q) y)
    ∙ bit_xor_assoc p q y
    ∙ ap (bit_xor p) (sym (bit_xor_assoc q b (bit_xor c d)))
    ∙ sym (bit_xor_assoc p (bit_xor q b) (bit_xor c d))
    ∙ sym (bit_xor_assoc (bit_xor p (bit_xor q b)) c d)

-- The sum of a column does not depend on where it starts.
pub total_turn : (a b c d : ℕ) → total a b c d ≡ total b c d a
total_turn a b c d =
    bit_xor_assoc (bit_xor a b) c d
    ∙ bit_xor_assoc a b (bit_xor c d)
    ∙ bit_xor_comm a (bit_xor b (bit_xor c d))
    ∙ ap (λ t. bit_xor t a) (sym (bit_xor_assoc b c d))

-- A mixed byte is a row of the matrix of FIPS 197.
pub mix_byte-row :
    (a b c d : ℕ)
    → a < 256
    → b < 256
    → mix_byte (total a b c d) a b
      ≡ bit_xor (bit_xor (bit_xor (multiply 8 a 2) (multiply 8 b 3)) c) d
unfolding mix_byte
mix_byte-row a b c d ha hb =
    ap (λ t. bit_xor (bit_xor a t) (total a b c d)) (gf2_8_field_mult_by_2-bit_xor a b ha hb)
    ∙ absorbed a (gf2_8_field_mult_by_2 a) (gf2_8_field_mult_by_2 b) b c d
    ∙ ap₂ (λ s t. bit_xor (bit_xor (bit_xor s t) c) d) (double a ha) (triple b hb)
