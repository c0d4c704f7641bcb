-- ===== src/Aes/Fips/Cipher.antt =====
-- The block encryption of the code is the cipher of FIPS 197 under the same round keys.
use e_ssp.Base.{
  ℕ, zero, suc, ◌+◌, ◌%◌, ◌<◌, bit_xor, bit_xor-lt, List, ◌++◌, item, All, IsByte, Option, ◌≡◌, sym,
  ap, ap₂, ◌∙◌, arith,
}
use e_ssp.Aes.Word.{byte_0, byte_1, byte_2, byte_3, split_into_4_bytes}
use e_ssp.Aes.Word.Laws.{word}
use e_ssp.Aes.Field.{forward_mix_col}
use e_ssp.Aes.Field.Linear.{gf2_8_field_mult_by_2-lt}
use e_ssp.Aes.Sbox.Laws.{forward_s_box_compute-lt}
use e_ssp.Aes.Block.{
  AesContext, Columns, write_columns, add_round_key, forward_column, forward_shift, each,
  encrypt_rounds, aes_set_key, aes_encrypt_16_byte_block,
}
use e_ssp.Aes.Block.Rounds.{IsWord}
use e_ssp.Aes.Block.Keys.{aes_set_key-IsWord}
use e_ssp.Aes.Fips.{
  multiply, State, sub_byte, sub_bytes, shift_rows, mix_columns, key_byte, add_key, full_rounds,
  fips_cipher, state_of, column_of,
}
use e_ssp.Aes.Fips.Steps.{forward_s_box_compute-sub_byte, double, triple}
use e_ssp.Aes.Fips.Laws.{
  Holds, column_word, read_columns-Holds, split_column, add_column, sub_column, mix_column,
}

sub_byte-lt : (x : ℕ) → x < 256 → sub_byte x < 256
sub_byte-lt x h = rw (sym (forward_s_box_compute-sub_byte x h)) (forward_s_box_compute-lt x h)

double-lt : (x : ℕ) → x < 256 → multiply 8 x 2 < 256
double-lt x h = rw (sym (double x h)) (gf2_8_field_mult_by_2-lt x h)

triple-lt : (x : ℕ) → x < 256 → multiply 8 x 3 < 256
triple-lt x h = rw (sym (triple x h)) (bit_xor-lt 8 _ x (gf2_8_field_mult_by_2-lt x h) h)

substituted :
    (s : State) (bytes : (r c : ℕ) → s r c < 256) (i j k l a b c d : ℕ)
    → a ≡ column_word s i
    → b ≡ column_word s j
    → c ≡ column_word s k
    → d ≡ column_word s l
    → forward_column a b c d
      ≡ word (sub_byte (s 0 i)) (sub_byte (s 1 j)) (sub_byte (s 2 k)) (sub_byte (s 3 l))
substituted s bytes i j k l a b c d p q r t = rw (p, q, r, t) (sub_column s bytes i j k l)

forward_shift-Holds :
    (x : Columns) (s : State) → Holds x s → Holds (forward_shift x) (shift_rows (sub_bytes s))
unfolding forward_shift shift_rows sub_bytes
forward_shift-Holds x s h = record {
  bytes = λ r c. sub_byte-lt (s r ((c + r) % 4)) (h.bytes r ((c + r) % 4));
  col0 = substituted s h.bytes 0 1 2 3 _ _ _ _ h.col0 h.col1 h.col2 h.col3;
  col1 = substituted s h.bytes 1 2 3 0 _ _ _ _ h.col1 h.col2 h.col3 h.col0;
  col2 = substituted s h.bytes 2 3 0 1 _ _ _ _ h.col2 h.col3 h.col0 h.col1;
  col3 = substituted s h.bytes 3 0 1 2 _ _ _ _ h.col3 h.col0 h.col1 h.col2;
}

mix_columns-Holds :
    (x : Columns) (s : State) → Holds x s → Holds (each forward_mix_col x) (mix_columns s)
unfolding mix_columns
mix_columns-Holds x s h = record {
  bytes = λ r c.
      bit_xor-lt 8 _ _
        (bit_xor-lt 8 _ _
          (bit_xor-lt 8 _ _ (double-lt (s r c) (h.bytes r c))
            (triple-lt (s ((r + 1) % 4) c) (h.bytes ((r + 1) % 4) c)))
          (h.bytes ((r + 2) % 4) c))
        (h.bytes ((r + 3) % 4) c);
  col0 = ap forward_mix_col h.col0 ∙ mix_column s h.bytes 0;
  col1 = ap forward_mix_col h.col1 ∙ mix_column s h.bytes 1;
  col2 = ap forward_mix_col h.col2 ∙ mix_column s h.bytes 2;
  col3 = ap forward_mix_col h.col3 ∙ mix_column s h.bytes 3;
}

key_column :
    (ks : List ℕ) (base : ℕ) (s : State) (bytes : (r c : ℕ) → s r c < 256) (c : ℕ)
    → IsWord (item ks (base + c))
    → bit_xor (item ks (base + c)) (column_word s c) ≡ column_word (add_key ks base s) c
unfolding add_key
key_column ks base s bytes c h =
    let k = item ks (base + c) in
    let last : byte_3 k ≡ key_byte ks base 3 c = omega arith in
    add_column s bytes k c h
    ∙ ap
        (λ t.
          word (bit_xor (byte_0 k) (s 0 c)) (bit_xor (byte_1 k) (s 1 c))
            (bit_xor (byte_2 k) (s 2 c)) (bit_xor t (s 3 c)))
        last

module _ (ctx : AesContext) (keys : (i : ℕ) → IsWord (item ctx.enc_round_keys i)) where
  add_round_key-Holds :
      (base : ℕ) (x : Columns) (s : State)
      → Holds x s
      → Holds (add_round_key ctx base x) (add_key ctx.enc_round_keys base s)
  unfolding add_round_key add_key
  add_round_key-Holds base x s h =
      let k : ℕ → ℕ = λ i. item ctx.enc_round_keys i in
      let key : (c : ℕ)
          → bit_xor (k (base + c)) (column_word s c)
            ≡ column_word (add_key ctx.enc_round_keys base s) c =
        λ c. key_column ctx.enc_round_keys base s h.bytes c (keys (base + c)) in
      record {
        bytes = λ r c. bit_xor-lt 8 _ _ (omega arith) (h.bytes r c);
        col0 = ap₂ bit_xor (ap k {x = base} {y = base + 0} (omega arith)) h.col0 ∙ key 0;
        col1 = ap (bit_xor (k (base + 1))) h.col1 ∙ key 1;
        col2 = ap (bit_xor (k (base + 2))) h.col2 ∙ key 2;
        col3 = ap (bit_xor (k (base + 3))) h.col3 ∙ key 3;
      }

  encrypt_rounds-Holds :
      (n base : ℕ) (x : Columns) (s : State)
      → Holds x s
      → Holds (encrypt_rounds n ctx base x) (full_rounds n ctx.enc_round_keys base s)
  unfolding encrypt_rounds full_rounds
  encrypt_rounds-Holds zero base x s h = h
  encrypt_rounds-Holds (suc n) base x s h =
      encrypt_rounds-Holds n (base + 4) _ _
        (add_round_key-Holds base _ _ (mix_columns-Holds _ _ (forward_shift-Holds x s h)))

abbrev pub columns_of : State → List ℕ
columns_of s = column_of s 0 ++ column_of s 1 ++ column_of s 2 ++ column_of s 3

write_columns-Holds : (x : Columns) (s : State) → Holds x s → write_columns x ≡ columns_of s
unfolding write_columns
write_columns-Holds x s h =
    let split = split_column s h.bytes in
    let write = split_into_4_bytes in
    ap₂ (◌++◌)
      (ap₂ (◌++◌) (ap₂ (◌++◌) (ap write h.col0 ∙ split 0) (ap write h.col1 ∙ split 1))
        (ap write h.col2 ∙ split 2))
      (ap write h.col3 ∙ split 3)

-- The encryption of a block of bytes under the round keys of a key of bytes is the cipher of
-- FIPS 197 with these round keys: each round substitutes the bytes, shifts the rows, mixes the
-- columns (not in the last round) and adds its round key.
pub aes_encrypt_16_byte_block-columns_of :
    (ctx : AesContext) (key : List ℕ) (iv : Option (List ℕ)) (plain : List ℕ)
    → All IsByte key
    → All IsByte plain
    → aes_encrypt_16_byte_block (aes_set_key ctx key iv) plain
      ≡ columns_of (fips_cipher (aes_set_key ctx key iv).enc_round_keys (state_of plain))
unfolding aes_encrypt_16_byte_block fips_cipher
aes_encrypt_16_byte_block-columns_of ctx key iv plain hk hp =
    let expanded = aes_set_key ctx key iv in
    let keys = aes_set_key-IsWord ctx key iv hk in
    let start = add_round_key-Holds expanded keys 0 _ _ (read_columns-Holds plain hp) in
    let rounds = encrypt_rounds-Holds expanded keys 9 4 _ _ start in
    write_columns-Holds _ _
      (add_round_key-Holds expanded keys 40 _ _ (forward_shift-Holds _ _ rounds))
