-- ===== src/Aes/Ecb.antt =====
-- The block functions of _eSSP/lib/Encryption.c behind the interface of the packet layer: each
-- call of `aes_encrypt` and `aes_decrypt` derives the round keys from the key first.
use e_ssp.Base.{ℕ, List, [], none, length, ◌≡◌}
use e_ssp.Cipher.{BlockCipher}
use e_ssp.Aes.Block.{
  AesContext, aes_set_key, aes_encrypt_16_byte_block, aes_decrypt_16_byte_block, forward_shift,
  encrypt_rounds, add_round_key, read_columns,
}
use e_ssp.Aes.Block.Bytes.{length-write_columns}
use e_ssp.Aes.Block.RoundTrip.{aes_decrypt_16_byte_block-aes_encrypt_16_byte_block}

-- The local `aes_ctx` before its keys are set; every one of them is written before it is read.
abbrev pub fresh : AesContext
fresh = record { enc_round_keys = []; iv = [] }

pub length-aes_encrypt_16_byte_block :
    (ctx : AesContext) (xs : List ℕ) → length (aes_encrypt_16_byte_block ctx xs) ≡ 16
unfolding aes_encrypt_16_byte_block
length-aes_encrypt_16_byte_block ctx xs = length-write_columns (
    add_round_key ctx 40
      (forward_shift (encrypt_rounds 9 ctx 4 (add_round_key ctx 0 (read_columns xs)))))

unfoldable pub aes : BlockCipher
unfolding aes_set_key aes_encrypt_16_byte_block aes_decrypt_16_byte_block
aes = record {
  encrypt_block = λ key xs. aes_encrypt_16_byte_block (aes_set_key fresh key none) xs;
  decrypt_block = λ key xs. aes_decrypt_16_byte_block (aes_set_key fresh key none) xs;
  length-encrypt = λ key xs. length-aes_encrypt_16_byte_block (aes_set_key fresh key none) xs;
  decrypt-encrypt = λ key xs k h kb xb.
      aes_decrypt_16_byte_block-aes_encrypt_16_byte_block fresh key none xs kb h xb;
}
