-- ===== src/Aes/Block.antt =====
-- The key schedule and the rounds of _eSSP/lib/Encryption.c: a block of 16 bytes is four columns,
-- each a 32-bit word.
pub mod Bytes
pub mod Keys
pub mod Rounds
pub mod Laws
pub mod RoundTrip
use e_ssp.Base.{
  item, ℕ, zero, suc, ◌+◌, ◌-◌, bit_xor, List, [], ◌∷◌, ◌++◌, take, Option, none, some,
}
use e_ssp.Aes.Word.{
  shl, byte_0, byte_1, byte_2, byte_3, concat_4_bytes, split_into_4_bytes, xor_bytes,
}
use e_ssp.Aes.Field.{forward_mix_col, inverse_mix_col}
use e_ssp.Aes.Sbox.{forward_s_box_compute, inverse_s_box_compute}

pub record AesContext : Type 0 where
  pub enc_round_keys : List ℕ
  pub iv : List ℕ

-- The round constants.
abbrev pub rcon : List ℕ
rcon = 0x01 ∷ 0x02 ∷ 0x04 ∷ 0x08 ∷ 0x10 ∷ 0x20 ∷ 0x40 ∷ 0x80 ∷ 0x1B ∷ 0x36 ∷ []

-- `enc_round_key[4]`, of `enc_round_key[0]` and `enc_round_key[3]` in round `i`.
unfoldable pub next_round_key : ℕ → ℕ → ℕ → ℕ
unfolding forward_s_box_compute
next_round_key i w0 w3 =
    let a = shl (bit_xor (forward_s_box_compute (byte_1 w3)) (item rcon i)) 24 in
    let b = shl (forward_s_box_compute (byte_2 w3)) 16 in
    let c = shl (forward_s_box_compute (byte_3 w3)) 8 in
    let d = forward_s_box_compute (byte_0 w3) in bit_xor (bit_xor (bit_xor (bit_xor w0 a) b) c) d

-- The loop that derives four words from four; `n` rounds are left, from round `i` on.
unfoldable pub derive_keys : ℕ → ℕ → ℕ → ℕ → ℕ → ℕ → List ℕ
unfolding next_round_key
derive_keys zero i w0 w1 w2 w3 = []
derive_keys (suc n) i w0 w1 w2 w3 =
    let w4 = next_round_key i w0 w3 in
    let w5 = bit_xor w1 w4 in
    let w6 = bit_xor w2 w5 in
    let w7 = bit_xor w3 w6 in w4 ∷ w5 ∷ w6 ∷ w7 ∷ derive_keys n (i + 1) w4 w5 w6 w7

abbrev pub mem_copy : List ℕ → List ℕ
mem_copy source = take 16 source

-- The round keys, and the initialization vector when one is given.
unfoldable pub aes_set_key : AesContext → List ℕ → Option (List ℕ) → AesContext
unfolding concat_4_bytes derive_keys
aes_set_key ctx key iv =
    let w0 = concat_4_bytes key 0 in
    let w1 = concat_4_bytes key 4 in
    let w2 = concat_4_bytes key 8 in
    let w3 = concat_4_bytes key 12 in
    record {
      enc_round_keys = w0 ∷ w1 ∷ w2 ∷ w3 ∷ derive_keys 10 0 w0 w1 w2 w3;
      iv = elim iv [ none ↦ ctx.iv | some v ↦ mem_copy v ];
    }

-- The four columns `cx0` to `cx3`.
pub record Columns : Type 0 where
  pub cx0 : ℕ
  pub cx1 : ℕ
  pub cx2 : ℕ
  pub cx3 : ℕ

unfoldable pub read_columns : List ℕ → Columns
unfolding concat_4_bytes
read_columns xs = record {
  cx0 = concat_4_bytes xs 0;
  cx1 = concat_4_bytes xs 4;
  cx2 = concat_4_bytes xs 8;
  cx3 = concat_4_bytes xs 12;
}

unfoldable pub write_columns : Columns → List ℕ
unfolding split_into_4_bytes
write_columns y =
    split_into_4_bytes y.cx0
    ++ split_into_4_bytes y.cx1
    ++ split_into_4_bytes y.cx2
    ++ split_into_4_bytes y.cx3

-- Each column with the round key at `base` and the three after it.
unfoldable pub add_round_key : AesContext → ℕ → Columns → Columns
add_round_key ctx base x = record {
  cx0 = bit_xor (item ctx.enc_round_keys base) x.cx0;
  cx1 = bit_xor (item ctx.enc_round_keys (base + 1)) x.cx1;
  cx2 = bit_xor (item ctx.enc_round_keys (base + 2)) x.cx2;
  cx3 = bit_xor (item ctx.enc_round_keys (base + 3)) x.cx3;
}

-- One column of a round: the substituted bytes of four columns, one byte of each.
unfoldable pub forward_column : ℕ → ℕ → ℕ → ℕ → ℕ
unfolding forward_s_box_compute xor_bytes
forward_column a b c d =
    xor_bytes (forward_s_box_compute (byte_0 a)) (forward_s_box_compute (byte_1 b))
      (forward_s_box_compute (byte_2 c)) (forward_s_box_compute (byte_3 d))

unfoldable pub inverse_column : ℕ → ℕ → ℕ → ℕ → ℕ
unfolding inverse_s_box_compute xor_bytes
inverse_column a b c d =
    xor_bytes (inverse_s_box_compute (byte_0 a)) (inverse_s_box_compute (byte_1 b))
      (inverse_s_box_compute (byte_2 c)) (inverse_s_box_compute (byte_3 d))

unfoldable pub forward_shift : Columns → Columns
unfolding forward_column
forward_shift x = record {
  cx0 = forward_column x.cx0 x.cx1 x.cx2 x.cx3;
  cx1 = forward_column x.cx1 x.cx2 x.cx3 x.cx0;
  cx2 = forward_column x.cx2 x.cx3 x.cx0 x.cx1;
  cx3 = forward_column x.cx3 x.cx0 x.cx1 x.cx2;
}

unfoldable pub inverse_shift : Columns → Columns
unfolding inverse_column
inverse_shift x = record {
  cx0 = inverse_column x.cx0 x.cx3 x.cx2 x.cx1;
  cx1 = inverse_column x.cx1 x.cx0 x.cx3 x.cx2;
  cx2 = inverse_column x.cx2 x.cx1 x.cx0 x.cx3;
  cx3 = inverse_column x.cx3 x.cx2 x.cx1 x.cx0;
}

abbrev pub each : (ℕ → ℕ) → Columns → Columns
each f x = record { cx0 = f x.cx0; cx1 = f x.cx1; cx2 = f x.cx2; cx3 = f x.cx3 }

-- The loop `while (i < 9)` of the encryption; `n` rounds are left, the round key is at `base`.
unfoldable pub encrypt_rounds : ℕ → AesContext → ℕ → Columns → Columns
unfolding forward_shift forward_mix_col add_round_key
encrypt_rounds zero ctx base x = x
encrypt_rounds (suc n) ctx base x =
    encrypt_rounds n ctx (base + 4)
      (add_round_key ctx base (each forward_mix_col (forward_shift x)))

unfoldable pub decrypt_rounds : ℕ → AesContext → ℕ → Columns → Columns
unfolding inverse_shift inverse_mix_col add_round_key
decrypt_rounds zero ctx base x = x
decrypt_rounds (suc n) ctx base x =
    decrypt_rounds n ctx (base - 4)
      (each inverse_mix_col (add_round_key ctx base (inverse_shift x)))

unfoldable pub aes_encrypt_16_byte_block : AesContext → List ℕ → List ℕ
unfolding read_columns add_round_key encrypt_rounds forward_shift write_columns
aes_encrypt_16_byte_block ctx plain =
    let cx = add_round_key ctx 0 (read_columns plain) in
    let cy = encrypt_rounds 9 ctx 4 cx in write_columns (add_round_key ctx 40 (forward_shift cy))

unfoldable pub aes_decrypt_16_byte_block : AesContext → List ℕ → List ℕ
unfolding read_columns add_round_key decrypt_rounds inverse_shift write_columns
aes_decrypt_16_byte_block ctx cipher =
    let cx = add_round_key ctx 40 (read_columns cipher) in
    let cy = decrypt_rounds 9 ctx 36 cx in write_columns (add_round_key ctx 0 (inverse_shift cy))
