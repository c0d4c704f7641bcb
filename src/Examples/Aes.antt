-- ===== src/Examples/Aes.antt =====
-- The AES block functions of _eSSP/lib/Encryption.c on the vector of FIPS 197, appendix C.1.
use e_ssp.Examples.{are_bytes, are_bytes-IsByte}
use e_ssp.Base.{ℕ, List, [], ◌∷◌, none, some, ◌≡◌, refl, arith}
use native.Mathlib.Decide.{dec_lt}
use e_ssp.Aes.Sbox.{inverse_run, inverse_element}
use e_ssp.Aes.Sbox.Inverse.{gf_multiply, inverse_element_lem}
use e_ssp.Aes.Block.RoundTrip.{aes_decrypt_16_byte_block-aes_encrypt_16_byte_block}
use e_ssp.Aes.Ecb.{fresh}
use e_ssp.Aes.Fips.{fips_cipher, key_expansion, state_of}
use e_ssp.Aes.Fips.Cipher.{columns_of}
use e_ssp.Aes.Fips.Expansion.{aes_encrypt_16_byte_block-fips_cipher}
use e_ssp.Aes.Block.{AesContext, aes_set_key, aes_encrypt_16_byte_block, aes_decrypt_16_byte_block}

abbrev sample_key : List ℕ
sample_key =
    0x00 ∷ 0x01 ∷ 0x02 ∷ 0x03 ∷ 0x04 ∷ 0x05 ∷ 0x06 ∷ 0x07 ∷ 0x08 ∷ 0x09 ∷ 0x0a ∷ 0x0b ∷ 0x0c ∷ 0x0d
    ∷ 0x0e ∷ 0x0f ∷ []

abbrev sample_plain : List ℕ
sample_plain =
    0x00 ∷ 0x11 ∷ 0x22 ∷ 0x33 ∷ 0x44 ∷ 0x55 ∷ 0x66 ∷ 0x77 ∷ 0x88 ∷ 0x99 ∷ 0xaa ∷ 0xbb ∷ 0xcc ∷ 0xdd
    ∷ 0xee ∷ 0xff ∷ []

abbrev sample_cipher : List ℕ
sample_cipher =
    0x69 ∷ 0xc4 ∷ 0xe0 ∷ 0xd8 ∷ 0x6a ∷ 0x7b ∷ 0x04 ∷ 0x30 ∷ 0xd8 ∷ 0xcd ∷ 0xb7 ∷ 0x80 ∷ 0x70 ∷ 0xb4
    ∷ 0xc5 ∷ 0x5a ∷ []

abbrev sample_context : AesContext
unfolding aes_set_key
sample_context = aes_set_key (record { enc_round_keys = []; iv = [] }) sample_key none

encrypted : aes_encrypt_16_byte_block sample_context sample_plain ≡ sample_cipher
unfolding aes_set_key aes_encrypt_16_byte_block
encrypted = refl

decrypted : aes_decrypt_16_byte_block sample_context sample_cipher ≡ sample_plain
unfolding aes_set_key aes_decrypt_16_byte_block
decrypted = refl

aes_decrypt_16_byte_block-aes_encrypt_16_byte_block_example :
    aes_decrypt_16_byte_block
      (aes_set_key fresh sample_key none)
      (aes_encrypt_16_byte_block (aes_set_key fresh sample_key none) sample_plain)
    ≡ sample_plain
unfolding are_bytes dec_lt
aes_decrypt_16_byte_block-aes_encrypt_16_byte_block_example =
    aes_decrypt_16_byte_block-aes_encrypt_16_byte_block fresh sample_key none sample_plain
      (are_bytes-IsByte sample_key refl) refl (are_bytes-IsByte sample_plain refl)

inverse_element_lem_example :
    (inverse_run 0x53 ≡ some (inverse_element 0x53))
    × (gf_multiply 8 0x53 (inverse_element 0x53) ≡ 1)
inverse_element_lem_example = inverse_element_lem 0x53 (omega arith) (omega arith)

aes_encrypt_16_byte_block-fips_cipher_example :
    aes_encrypt_16_byte_block (aes_set_key fresh sample_key none) sample_plain
    ≡ columns_of (fips_cipher (key_expansion sample_key) (state_of sample_plain))
unfolding are_bytes dec_lt
aes_encrypt_16_byte_block-fips_cipher_example =
    aes_encrypt_16_byte_block-fips_cipher fresh sample_key none sample_plain
      (are_bytes-IsByte sample_key refl) (are_bytes-IsByte sample_plain refl)
