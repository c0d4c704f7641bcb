-- ===== src/Aes/Block/RoundTrip.antt =====
-- A block that is encrypted and then decrypted is the block.
use e_ssp.Base.{item, ℕ, List, length, All, IsByte, ◌≡◌, ap, arith, ◌∙◌, Option}
use e_ssp.Aes.Block.{
  AesContext, Columns, forward_shift, inverse_shift, write_columns, read_columns, add_round_key,
  encrypt_rounds, decrypt_rounds, aes_set_key, aes_encrypt_16_byte_block, aes_decrypt_16_byte_block,
}
use e_ssp.Aes.Block.Rounds.{
  IsWord, inverse_shift-forward_shift, forward_shift-AreWords, add_round_key_twice,
}
use e_ssp.Aes.Block.Laws.{decrypt_rounds-encrypt_rounds, add_round_key-AreWords}
use e_ssp.Aes.Block.Bytes.{
  read_columns-write_columns, write_columns-read_columns, read_columns-AreWords,
}
use e_ssp.Aes.Block.Keys.{aes_set_key-IsWord}

module _ (ctx : AesContext) (keys : (i : ℕ) → IsWord (item ctx.enc_round_keys i)) where
  -- What the decryption reads, after its first round key.
  cipher_columns :
      (z : Columns)
      → add_round_key ctx 40 (read_columns (write_columns (add_round_key ctx 40 (forward_shift z))))
        ≡ forward_shift z
  cipher_columns z =
      ap (add_round_key ctx 40) (
        read_columns-write_columns (add_round_key ctx 40 (forward_shift z))
          (add_round_key-AreWords ctx keys 40 (forward_shift z) (forward_shift-AreWords z)))
      ∙ add_round_key_twice ctx 40 (forward_shift z)

  block_undone :
      (xs : List ℕ)
      → length xs ≡ 16
      → All IsByte xs
      → aes_decrypt_16_byte_block ctx (aes_encrypt_16_byte_block ctx xs) ≡ xs
  unfolding aes_decrypt_16_byte_block aes_encrypt_16_byte_block
  block_undone xs h bytes =
      let x = add_round_key ctx 0 (read_columns xs) in
      let words =
        add_round_key-AreWords ctx keys 0 (read_columns xs) (read_columns-AreWords xs bytes) in
      ap (λ y. write_columns (add_round_key ctx 0 (inverse_shift (decrypt_rounds 9 ctx 36 y))))
        (cipher_columns (encrypt_rounds 9 ctx 4 x))
      ∙ ap (λ y. write_columns (add_round_key ctx 0 (inverse_shift y)))
          (decrypt_rounds-encrypt_rounds ctx keys 9 4 x (omega arith))
      ∙ ap (λ y. write_columns (add_round_key ctx 0 y)) (inverse_shift-forward_shift x words)
      ∙ ap write_columns (add_round_key_twice ctx 0 (read_columns xs))
      ∙ write_columns-read_columns xs bytes h

-- Under the round keys of any key of bytes, the decryption of the encryption of a block of 16
-- bytes is the block.
pub aes_decrypt_16_byte_block-aes_encrypt_16_byte_block :
    (ctx : AesContext) (key : List ℕ) (iv : Option (List ℕ)) (plain : List ℕ)
    → All IsByte key
    → length plain ≡ 16
    → All IsByte plain
    → aes_decrypt_16_byte_block
        (aes_set_key ctx key iv)
        (aes_encrypt_16_byte_block (aes_set_key ctx key iv) plain)
      ≡ plain
aes_decrypt_16_byte_block-aes_encrypt_16_byte_block ctx key iv plain k h bytes =
    block_undone (aes_set_key ctx key iv) (aes_set_key-IsWord ctx key iv k) plain h bytes
