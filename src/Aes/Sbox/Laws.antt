-- ===== src/Aes/Sbox/Laws.antt =====
-- The S-boxes are inverse to each other on bytes.
use e_ssp.Base.{ℕ, every, every-true, every-equal, ◌==◌, ltb, true, ◌<◌, ◌≡◌, refl, arith}
use e_ssp.Aes.Sbox.{forward_s_box_compute, inverse_s_box_compute}

inverse_table : every 256 (λ x. inverse_s_box_compute (forward_s_box_compute x) == x) ≡ true
unfolding forward_s_box_compute inverse_s_box_compute
inverse_table = refl

-- On bytes the inverse S-box undoes the forward S-box.
pub inverse_s_box_compute-forward_s_box_compute :
    (x : ℕ) → x < 256 → inverse_s_box_compute (forward_s_box_compute x) ≡ x
inverse_s_box_compute-forward_s_box_compute =
    every-equal 256 (λ x. inverse_s_box_compute (forward_s_box_compute x)) (λ x. x) inverse_table

byte_table : every 256 (λ x. ltb (forward_s_box_compute x) 256) ≡ true
unfolding forward_s_box_compute
byte_table = refl

pub forward_s_box_compute-lt : (x : ℕ) → x < 256 → forward_s_box_compute x < 256
forward_s_box_compute-lt x h =
    let e = every-true 256 (λ y. ltb (forward_s_box_compute y) 256) byte_table x h in ground arith
