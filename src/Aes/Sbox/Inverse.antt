-- ===== src/Aes/Sbox/Inverse.antt =====
-- Euclid's algorithm stops within its fuel and finds the inverse of a byte.
use e_ssp.Base.{
  ℕ, zero, suc, ◌/◌, ◌%◌, ◌<◌, bit_xor, every, every-true, ◌==◌, ==_iff, if◌then◌else◌, Option,
  none, some, Bool, true, false, ◌||◌, ◌≡◌, refl, ap, arith,
}
use e_ssp.Aes.Field.{gf2_8_field_mult_by_2}
use e_ssp.Aes.Sbox.{inverse_run, inverse_element}

-- The product in the field, by the binary digits of the second factor.
unfoldable pub gf_multiply : ℕ → ℕ → ℕ → ℕ
unfolding gf2_8_field_mult_by_2
gf_multiply zero a b = 0
gf_multiply (suc digits) a b =
    bit_xor (if b % 2 == 1 then a else 0) (gf_multiply digits (gf2_8_field_mult_by_2 a) (b / 2))

run_table : every 256 (λ x. (x == 0) || (gf_multiply 8 x (inverse_element x) == 1)) ≡ true
unfolding inverse_element gf_multiply
run_table = refl

unfoldable is_some : Option ℕ → ℕ → Bool
is_some none v = false
is_some (some u) v = u == v

stop_table : every 256 (λ x. (x == 0) || is_some (inverse_run x) (inverse_element x)) ≡ true
unfolding inverse_element inverse_run is_some
stop_table = refl

or_else : (a b : Bool) → a ≡ false → (a || b) ≡ true → b ≡ true
or_else true b e f = ground arith
or_else false b e f = f

not_zero : (x : ℕ) → 0 < x → (x == 0) ≡ false
not_zero x h = ground arith

is_some-true : (o : Option ℕ) (v : ℕ) → is_some o v ≡ true → o ≡ some v
unfolding is_some
is_some-true none v e = ground arith
is_some-true (some u) v e = ap some ((==_iff u v).0 e)

-- For a byte that is not 0 the loop ends within 16 rounds, and the byte times the result is 1 in
-- the field.
pub inverse_element_lem :
    (x : ℕ)
    → 0 < x
    → x < 256
    → (inverse_run x ≡ some (inverse_element x)) × (gf_multiply 8 x (inverse_element x) ≡ 1)
inverse_element_lem x pos h = (
  is_some-true (inverse_run x) (inverse_element x) (
      or_else _ _ (not_zero x pos) (
        every-true 256 (λ y. (y == 0) || is_some (inverse_run y) (inverse_element y)) stop_table x
          h)),
  (==_iff _ _).0 (
      or_else _ _ (not_zero x pos) (
        every-true 256 (λ y. (y == 0) || (gf_multiply 8 y (inverse_element y) == 1)) run_table x
          h)),
)
