-- ===== src/Cipher.antt =====
-- `aes_encrypt` and `aes_decrypt` of _eSSP/lib/Encryption.c as the packet layer uses them: ECB
-- mode over 16-byte blocks, behind the interface of the block functions.
pub mod Laws
use e_ssp.Base.{ℕ, zero, suc, ◌*◌, ◌/◌, ◌^◌, u8, List, [], ◌∷◌, ◌++◌, length, take, drop}
use e_ssp.Base.{All, IsByte, ◌≡◌}
use e_ssp.Defs.{FullKey}

-- A pair of functions on blocks of 16 bytes, each under a key of 16 bytes.
pub record BlockCipher : Type 0 where
  pub encrypt_block : List ℕ → List ℕ → List ℕ
  pub decrypt_block : List ℕ → List ℕ → List ℕ
  pub length-encrypt : (key xs : List ℕ) → length (encrypt_block key xs) ≡ 16
  pub decrypt-encrypt :
      (key xs : List ℕ)
      → length key ≡ 16
      → length xs ≡ 16
      → All IsByte key
      → All IsByte xs
      → decrypt_block key (encrypt_block key xs) ≡ xs

-- The first `n` bytes of a number, lowest first.
unfoldable pub le_bytes : ℕ → ℕ → List ℕ
le_bytes zero v = []
le_bytes (suc n) v = u8 v ∷ le_bytes n (v / 256)

-- The 16 bytes at `(unsigned char*)&cmd->Key`, on a little-endian machine.
unfoldable pub key_bytes : FullKey → List ℕ
unfolding le_bytes
key_bytes k = le_bytes 8 k.fixed_key ++ le_bytes 8 k.encrypt_key

-- The loop over the blocks; `n` is `num_blocks`.
unfoldable pub ecb : (List ℕ → List ℕ) → ℕ → List ℕ → List ℕ
ecb block zero xs = []
ecb block (suc n) xs = block (take 16 xs) ++ ecb block n (drop 16 xs)

module _ (cipher : BlockCipher) where
  unfoldable pub aes_encrypt : FullKey → List ℕ → List ℕ
  unfolding ecb
  aes_encrypt key xs = ecb (cipher.encrypt_block (key_bytes key)) (length xs / 16) xs

  unfoldable pub aes_decrypt : FullKey → List ℕ → List ℕ
  unfolding ecb
  aes_decrypt key xs = ecb (cipher.decrypt_block (key_bytes key)) (length xs / 16) xs
