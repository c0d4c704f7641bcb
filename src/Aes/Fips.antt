-- ===== src/Aes/Fips.antt =====
-- The cipher as FIPS 197 describes it, on a state of rows and columns of bytes: an independent
-- description of the block encryption of _eSSP/lib/Encryption.c.
pub mod Steps
pub mod Laws
pub mod Cipher
pub mod Expansion
use e_ssp.Base.{
  ℕ, zero, suc, ◌+◌, ◌*◌, ◌/◌, ◌%◌, ◌^◌, ◌-◌, bit_xor, u8, ◌==◌, if◌then◌else◌, List, [], ◌∷◌, item,
  slice,
}

-- The byte in row `r` and column `c`.
abbrev pub State : Type 0
State = ℕ → ℕ → ℕ

-- The product with x in the field, modulo x^8 + x^4 + x^3 + x + 1.
unfoldable pub x_time : ℕ → ℕ
x_time b = bit_xor (b * 2 % 256) (b / 128 * 0x1b)

-- The product in the field, by the binary digits of the second factor.
unfoldable pub multiply : ℕ → ℕ → ℕ → ℕ
unfolding x_time
multiply zero a b = 0
multiply (suc digits) a b =
    bit_xor (if b % 2 == 1 then a else 0) (multiply digits (x_time a) (b / 2))

-- The powers x, x^2, x^4 and so on, multiplied: `n` factors.
unfoldable pub gf_squares : ℕ → ℕ → ℕ
unfolding multiply
gf_squares zero x = 1
gf_squares (suc n) x = multiply 8 x (gf_squares n (multiply 8 x x))

-- x^254, the inverse of a byte that is not 0, and 0 for 0.
unfoldable pub gf_inverse : ℕ → ℕ
unfolding gf_squares
gf_inverse x = gf_squares 7 (multiply 8 x x)

-- The affine transformation of FIPS 197, section 5.1.1, digit by digit.
bit : ℕ → ℕ → ℕ
bit b i = b / 2 ^ (i % 8) % 2

affine_bit : ℕ → ℕ → ℕ
unfolding bit
affine_bit b i =
    (bit b i + bit b (i + 4) + bit b (i + 5) + bit b (i + 6) + bit b (i + 7) + bit 0x63 i) % 2

unfoldable pub affine : ℕ → ℕ → ℕ
unfolding affine_bit
affine zero b = 0
affine (suc digits) b = affine digits b + affine_bit b digits * 2 ^ digits

unfoldable pub sub_byte : ℕ → ℕ
unfolding gf_inverse affine
sub_byte x = affine 8 (gf_inverse x)

unfoldable pub sub_bytes : State → State
sub_bytes s r c = sub_byte (s r c)

unfoldable pub shift_rows : State → State
shift_rows s r c = s r ((c + r) % 4)

-- The matrix with the rows 2 3 1 1, 1 2 3 1, 1 1 2 3 and 3 1 1 2.
unfoldable pub mix_columns : State → State
mix_columns s r c =
    bit_xor
      (bit_xor (bit_xor (multiply 8 (s r c) 2) (multiply 8 (s ((r + 1) % 4) c) 3))
        (s ((r + 2) % 4) c))
      (s ((r + 3) % 4) c)

-- Byte `r` of word `c` of the four round keys from `base` on.
abbrev pub key_byte : List ℕ → ℕ → ℕ → ℕ → ℕ
key_byte keys base r c = u8 (item keys (base + c) / 256 ^ (3 - r))

unfoldable pub add_key : List ℕ → ℕ → State → State
add_key keys base s r c = bit_xor (key_byte keys base r c) (s r c)

-- The rounds with all four steps; `n` are left, and their keys are from `base` on.
unfoldable pub full_rounds : ℕ → List ℕ → ℕ → State → State
full_rounds zero keys base s = s
full_rounds (suc n) keys base s =
    full_rounds n keys (base + 4) (add_key keys base (mix_columns (shift_rows (sub_bytes s))))

unfoldable pub fips_cipher : List ℕ → State → State
fips_cipher keys s =
    let rounds = full_rounds 9 keys 4 (add_key keys 0 s) in
    add_key keys 40 (shift_rows (sub_bytes rounds))

-- The input and the output, column by column.
abbrev pub state_of : List ℕ → State
state_of xs r c = item xs (4 * c + r)

abbrev pub column_of : State → ℕ → List ℕ
column_of s c = s 0 c ∷ s 1 c ∷ s 2 c ∷ s 3 c ∷ []

-- A word of bytes, the first the most significant, and byte `k` of a word.
abbrev pub join_bytes : ℕ → ℕ → ℕ → ℕ → ℕ
join_bytes a b c d = ((a * 256 + b) * 256 + c) * 256 + d

abbrev pub byte_of : ℕ → ℕ → ℕ
byte_of w k = w / 256 ^ (3 - k) % 256

-- SubWord after RotWord.
unfoldable pub sub_rotated : ℕ → ℕ
sub_rotated w =
    join_bytes (sub_byte (byte_of w 1)) (sub_byte (byte_of w 2)) (sub_byte (byte_of w 3))
      (sub_byte (byte_of w 0))

-- The powers of x: the first byte of the round constants.
unfoldable pub round_constant : ℕ → ℕ
unfolding x_time
round_constant zero = 1
round_constant (suc i) = x_time (round_constant i)

-- What is added to the word four places back, of the last word; `i` is the number of the new word.
unfoldable pub key_term : ℕ → ℕ → ℕ
unfolding sub_rotated round_constant
key_term i last =
    if i % 4 == 0
    then bit_xor (sub_rotated last) (join_bytes (round_constant (i / 4 - 1)) 0 0 0)
    else last

-- Word `i` of the key expansion of FIPS 197, section 5.2, with a key of four words.
unfoldable pub key_word : List ℕ → ℕ → ℕ
unfolding key_term
key_word key zero = join_bytes (item key 0) (item key 1) (item key 2) (item key 3)
key_word key (suc zero) = join_bytes (item key 4) (item key 5) (item key 6) (item key 7)
key_word key (suc (suc zero)) = join_bytes (item key 8) (item key 9) (item key 10) (item key 11)
key_word key (suc (suc (suc zero))) =
    join_bytes (item key 12) (item key 13) (item key 14) (item key 15)
key_word key (suc (suc (suc (suc i)))) =
    bit_xor (key_word key i) (key_term (suc (suc (suc (suc i)))) (key_word key (suc (suc (suc i)))))

-- The 44 words of the key expansion.
abbrev pub key_expansion : List ℕ → List ℕ
key_expansion key = slice (key_word key) 0 44
