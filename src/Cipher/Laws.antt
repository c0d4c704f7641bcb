-- ===== src/Cipher/Laws.antt =====
-- ECB decryption undoes ECB encryption, on a whole number of blocks.
use e_ssp.Base.{
  ℕ, zero, suc, ◌*◌, ◌/◌, List, [], ◌∷◌, ◌++◌, length, take, drop, take-append, drop-append,
  take-append-drop, length-take, length-drop, length-append, All, IsByte, All-take, All-drop,
  All-append, ◌≡◌, refl, ap, ap₂, arith, ◌∙◌,
}
use e_ssp.Defs.{FullKey}
use e_ssp.Cipher.{BlockCipher, le_bytes, key_bytes, ecb, aes_encrypt, aes_decrypt}

pub length-le_bytes : (n v : ℕ) → length (le_bytes n v) ≡ n
unfolding le_bytes
length-le_bytes zero v = refl
length-le_bytes (suc n) v = ap suc (length-le_bytes n (v / 256))

pub le_bytes-IsByte : (n v : ℕ) → All IsByte (le_bytes n v)
unfolding le_bytes
le_bytes-IsByte zero v = tt
le_bytes-IsByte (suc n) v = (omega arith, le_bytes-IsByte n (v / 256))

key_bytes-IsByte : (key : FullKey) → All IsByte (key_bytes key)
unfolding key_bytes
key_bytes-IsByte key =
    All-append IsByte (le_bytes 8 key.fixed_key) (le_bytes 8 key.encrypt_key)
      (le_bytes-IsByte 8 key.fixed_key) (le_bytes-IsByte 8 key.encrypt_key)

module _ (f g : List ℕ → List ℕ) (len : (xs : List ℕ) → length (f xs) ≡ 16)
    (undo : (xs : List ℕ) → length xs ≡ 16 → All IsByte xs → g (f xs) ≡ xs) where
  length-ecb : (n : ℕ) (xs : List ℕ) → length (ecb f n xs) ≡ n * 16
  unfolding ecb
  length-ecb zero xs = omega arith
  length-ecb (suc n) xs = omega (
    arith,
    length-append (f (take 16 xs)) (ecb f n (drop 16 xs)),
    len (take 16 xs),
    length-ecb n (drop 16 xs),
  )

  ecb_undo : (n : ℕ) (xs : List ℕ) → length xs ≡ n * 16 → All IsByte xs → ecb g n (ecb f n xs) ≡ xs
  unfolding ecb
  ecb_undo zero [] h bytes = refl
  ecb_undo zero (x ∷ xs) h bytes = absurd (omega arith)
  ecb_undo (suc n) xs h bytes =
      ap₂ (λ a b. g a ++ ecb g n b)
        (take-append 16 (f (take 16 xs)) (ecb f n (drop 16 xs)) (len (take 16 xs)))
        (drop-append 16 (f (take 16 xs)) (ecb f n (drop 16 xs)) (len (take 16 xs)))
      ∙ ap₂ (◌++◌)
          (undo (take 16 xs) (length-take 16 xs (omega arith)) (All-take IsByte 16 xs bytes))
          (ecb_undo n (drop 16 xs) (omega (arith, length-drop 16 xs)) (All-drop IsByte 16 xs bytes))
      ∙ take-append-drop 16 xs

length-key_bytes : (key : FullKey) → length (key_bytes key) ≡ 16
unfolding key_bytes
length-key_bytes key = omega (
  arith,
  length-append (le_bytes 8 key.fixed_key) (le_bytes 8 key.encrypt_key),
  length-le_bytes 8 key.fixed_key,
  length-le_bytes 8 key.encrypt_key,
)

module _ (cipher : BlockCipher) (key : FullKey) where
  block_undo :
      (xs : List ℕ)
      → length xs ≡ 16
      → All IsByte xs
      → cipher.decrypt_block (key_bytes key) (cipher.encrypt_block (key_bytes key) xs) ≡ xs
  block_undo xs l b =
      cipher.decrypt-encrypt (key_bytes key) xs (length-key_bytes key) l (key_bytes-IsByte key) b

  pub length-aes_encrypt :
      (n : ℕ) (xs : List ℕ) → length xs ≡ n * 16 → length (aes_encrypt cipher key xs) ≡ n * 16
  unfolding aes_encrypt
  length-aes_encrypt n xs h = omega (
    arith,
    length-ecb (cipher.encrypt_block (key_bytes key)) (cipher.decrypt_block (key_bytes key))
        (cipher.length-encrypt (key_bytes key)) block_undo (length xs / 16) xs,
  )

  -- What ECB mode encrypts, a whole number of blocks, it decrypts to the same bytes.
  pub aes_decrypt-encrypt :
      (n : ℕ) (xs : List ℕ)
      → length xs ≡ n * 16
      → All IsByte xs
      → aes_decrypt cipher key (aes_encrypt cipher key xs) ≡ xs
  unfolding aes_decrypt aes_encrypt
  aes_decrypt-encrypt n xs h bytes =
      ap (λ m. ecb (cipher.decrypt_block (key_bytes key)) m (aes_encrypt cipher key xs)) blocks
      ∙ ecb_undo (cipher.encrypt_block (key_bytes key)) (cipher.decrypt_block (key_bytes key))
          (cipher.length-encrypt (key_bytes key)) block_undo (length xs / 16) xs (omega arith) bytes
    where
      blocks : length (aes_encrypt cipher key xs) / 16 ≡ length xs / 16
      blocks = omega (arith, length-aes_encrypt n xs h)
