-- ===== src/Aes/Sbox.antt =====
-- The substitution of bytes of _eSSP/lib/Encryption.c, computed by Euclid's algorithm.
pub mod Laws
pub mod Inverse
use e_ssp.Base.{
  ℕ, zero, suc, ◌*◌, ◌+◌, ◌/◌, ◌^◌, bit_or, bit_xor, u8, ◌==◌, leb, ltb, if◌then◌else◌, Option,
  none, some,
}
use e_ssp.Aes.Field.{gf2_8_field_polynomial}
use e_ssp.Aes.Word.{shl}

unfoldable pub highbit : ℕ → ℕ
highbit x =
    let r = u8 (bit_or (x / 2) (x / 4)) in
    let s = bit_or r (r / 4) in let t = bit_or s (s / 16) in (t + 1) / 2

-- The variables of one side: the polynomial, its highest bit and its factor.
pub record Side : Type 0 where
  pub p : ℕ
  pub n : ℕ
  pub v : ℕ

-- `while (n2 >= n1) ...` on the side `two`, with as many rounds as the fuel at most.
unfoldable pub reduce : ℕ → Side → Side → Option Side
unfolding highbit
reduce zero one two = none
reduce (suc fuel) one two =
    let n = two.n / one.n in
    let p = bit_xor two.p (u8 (one.p * n)) in
    let v = bit_xor two.v (u8 (one.v * n)) in
    let rest = reduce fuel one (record { p = p; n = highbit p; v = v }) in
    if leb one.n two.n then rest else some two

-- `for (;;) ...`: the loops for the two sides are the same with the sides exchanged.
unfoldable pub euclid : ℕ → Side → Side → Option ℕ
unfolding reduce
euclid zero one two = none
euclid (suc fuel) one two =
    if one.n == 0
    then some one.v
    else elim (reduce 8 one two) [ none ↦ none | some next ↦ euclid fuel next one ]

-- The loop with its initial values, for an input of at least 2.
unfoldable pub inverse_run : ℕ → Option ℕ
unfolding highbit euclid
inverse_run input =
    euclid 16 (record { p = input; n = highbit input; v = 1 })
      (record { p = gf2_8_field_polynomial; n = 0x80; v = 0 })

-- The loop stops for every byte, so that the 0 is never the result.
unfoldable pub inverse_element : ℕ → ℕ
unfolding inverse_run
inverse_element input =
    if ltb input 2 then input else elim (inverse_run input) [ none ↦ 0 | some v ↦ v ]

unfoldable pub forward_s_box_compute : ℕ → ℕ
unfolding inverse_element
forward_s_box_compute input =
    let w = inverse_element input in
    let l = bit_xor w (bit_xor (bit_xor (bit_xor (shl w 1) (shl w 2)) (shl w 3)) (shl w 4)) in
    bit_xor 0x63 (u8 (bit_xor l (l / 2 ^ 8)))

unfoldable pub inverse_s_box_compute : ℕ → ℕ
unfolding inverse_element
inverse_s_box_compute input =
    let l = bit_xor (bit_xor (shl input 1) (shl input 3)) (shl input 6) in
    inverse_element (bit_xor 0x05 (u8 (bit_xor l (l / 2 ^ 8))))
