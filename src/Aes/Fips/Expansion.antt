-- ===== src/Aes/Fips/Expansion.antt =====
-- The key schedule of the code is the key expansion of FIPS 197.
use e_ssp.Base.{
  ℕ, zero, suc, ◌+◌, ◌*◌, ◌/◌, ◌%◌, ◌^◌, ◌<◌, ◌≤◌, ◌-◌, bit_xor, bit_xor_assoc, bit_xor_comm,
  zero-bit_xor, every, every-true, every-equal, ltb, bit_xor-lt, ◌==◌, true, List, ◌∷◌, item, slice,
  All, IsByte, Option, ◌≡◌, refl, sym, ap, ap₂, ◌∙◌, arith,
}
use e_ssp.Aes.Word.{byte_0, byte_1, byte_2, byte_3, xor_bytes}
use e_ssp.Aes.Word.Laws.{word, bit_xor-word, xor_bytes-word, concat_4_bytes-word}
use e_ssp.Aes.Sbox.{forward_s_box_compute}
use e_ssp.Aes.Sbox.Laws.{forward_s_box_compute-lt}
use e_ssp.Aes.Block.{
  AesContext, rcon, next_round_key, derive_keys, aes_set_key, aes_encrypt_16_byte_block,
}
use e_ssp.Aes.Block.Bytes.{item-lt}
use e_ssp.Aes.Fips.{
  round_constant, sub_byte, sub_rotated, key_term, key_word, key_expansion, fips_cipher, state_of,
}
use e_ssp.Aes.Fips.Steps.{forward_s_box_compute-sub_byte}
use e_ssp.Aes.Fips.Cipher.{columns_of, aes_encrypt_16_byte_block-columns_of}

constant_table : every 10 (λ i. item rcon i == round_constant i) ≡ true
unfolding round_constant
constant_table = refl

rcon-round_constant : (i : ℕ) → i < 10 → item rcon i ≡ round_constant i
rcon-round_constant = every-equal 10 (item rcon) round_constant constant_table

constant_byte_table : every 10 (λ i. ltb (item rcon i) 256) ≡ true
constant_byte_table = refl

rcon-lt : (i : ℕ) → i < 10 → item rcon i < 256
rcon-lt i h =
    let e = every-true 10 (λ i. ltb (item rcon i) 256) constant_byte_table i h in ground arith

bit_xor-zero : (a : ℕ) → bit_xor a 0 ≡ a
bit_xor-zero a = bit_xor_comm a 0 ∙ zero-bit_xor a

-- A sum of five, the first against the other four.
regroup :
    (w a b c d : ℕ)
    → bit_xor (bit_xor (bit_xor (bit_xor w a) b) c) d
      ≡ bit_xor w (bit_xor (bit_xor (bit_xor a b) c) d)
regroup w a b c d =
    ap (λ t. bit_xor (bit_xor t c) d) (bit_xor_assoc w a b)
    ∙ ap (λ t. bit_xor t d) (bit_xor_assoc w (bit_xor a b) c)
    ∙ bit_xor_assoc w (bit_xor (bit_xor a b) c) d

-- A round constant in the top byte.
add_constant :
    (a b c d r : ℕ)
    → a < 256
    → b < 256
    → c < 256
    → d < 256
    → r < 256
    → xor_bytes (bit_xor a r) b c d ≡ bit_xor (word a b c d) (word r 0 0 0)
add_constant a b c d r ha hb hc hd hr =
    xor_bytes-word (bit_xor a r) b c d (bit_xor-lt 8 a r ha hr) hb hc hd
    ∙ sym (
        bit_xor-word a b c d r 0 0 0 hb hc hd (omega arith) (omega arith) (omega arith)
        ∙ ap₂ (λ s t. word (bit_xor a r) s t (bit_xor d 0)) (bit_xor-zero b) (bit_xor-zero c)
        ∙ ap (word (bit_xor a r) b c) (bit_xor-zero d))

next_round_key-xor :
    (i w0 w3 : ℕ)
    → i < 10
    → next_round_key i w0 w3
      ≡ bit_xor w0 (
          bit_xor
            (word
              (forward_s_box_compute (byte_1 w3))
              (forward_s_box_compute (byte_2 w3))
              (forward_s_box_compute (byte_3 w3))
              (forward_s_box_compute (byte_0 w3)))
            (word (item rcon i) 0 0 0))
unfolding next_round_key xor_bytes
next_round_key-xor i w0 w3 h =
    let s = forward_s_box_compute in
    let lt = forward_s_box_compute-lt in
    regroup w0 _ _ _ _
    ∙ ap (bit_xor w0) (
        add_constant (s (byte_1 w3)) (s (byte_2 w3)) (s (byte_3 w3)) (s (byte_0 w3)) (item rcon i)
          (lt (byte_1 w3) (omega arith)) (lt (byte_2 w3) (omega arith))
          (lt (byte_3 w3) (omega arith)) (lt (byte_0 w3) (omega arith)) (rcon-lt i h))

sub_rotated-forward :
    (w : ℕ)
    → word
        (forward_s_box_compute (byte_1 w))
        (forward_s_box_compute (byte_2 w))
        (forward_s_box_compute (byte_3 w))
        (forward_s_box_compute (byte_0 w))
      ≡ sub_rotated w
unfolding sub_rotated
sub_rotated-forward w =
    let sub = forward_s_box_compute-sub_byte in
    let last : byte_3 w ≡ w / 256 ^ 0 % 256 = omega arith in
    ap₂ (λ p q. word p q (forward_s_box_compute (byte_3 w)) (forward_s_box_compute (byte_0 w)))
      (sub (byte_1 w) (omega arith)) (sub (byte_2 w) (omega arith))
    ∙ ap₂ (word (sub_byte (byte_1 w)) (sub_byte (byte_2 w)))
        (sub (byte_3 w) (omega arith) ∙ ap sub_byte last) (sub (byte_0 w) (omega arith))

key_term-first :
    (n last : ℕ)
    → n % 4 ≡ 0
    → key_term n last ≡ bit_xor (sub_rotated last) (word (round_constant (n / 4 - 1)) 0 0 0)
unfolding key_term
key_term-first n last h = ground arith

-- The first of the four new words.
next_round_key-key_term :
    (i n w0 w3 : ℕ) → i < 10 → n ≡ i * 4 + 4 → next_round_key i w0 w3 ≡ bit_xor w0 (key_term n w3)
next_round_key-key_term i n w0 w3 h e =
    let place : i ≡ n / 4 - 1 = omega arith in
    next_round_key-xor i w0 w3 h
    ∙ ap (bit_xor w0) (
        ap₂ (λ a r. bit_xor a (word r 0 0 0)) (sub_rotated-forward w3)
          (rcon-round_constant i h ∙ ap round_constant place)
        ∙ sym (key_term-first n w3 (omega arith)))

-- The other three are the sum of two words.
key_term-plain : (n last : ℕ) → ¬ (n % 4 ≡ 0) → key_term n last ≡ last
unfolding key_term
key_term-plain n last h = ground arith

together :
    (f : ℕ → ℕ → ℕ → ℕ → List ℕ) {a b c d p q r s : ℕ}
    → a ≡ p
    → b ≡ q
    → c ≡ r
    → d ≡ s
    → f a b c d ≡ f p q r s
together f u v w x i = f (u i) (v i) (w i) (x i)

derive_keys-key_word :
    (key : List ℕ) (n i b : ℕ)
    → b ≡ i * 4
    → i + n ≤ 10
    → derive_keys n i
        (key_word key b)
        (key_word key (suc b))
        (key_word key (suc (suc b)))
        (key_word key (suc (suc (suc b))))
      ≡ slice (key_word key) (suc (suc (suc (suc b)))) (n * 4)
unfolding derive_keys key_word
derive_keys-key_word key zero i b e h = refl
derive_keys-key_word key (suc n) i b e h =
    let kw = key_word key in
    let b1 = suc b in
    let b2 = suc b1 in
    let b3 = suc b2 in
    let b4 = suc b3 in
    let b5 = suc b4 in
    let b6 = suc b5 in
    let b7 = suc b6 in
    let plain : (j m : ℕ)
        → ¬ (suc m % 4 ≡ 0)
        → bit_xor (kw j) (kw m) ≡ bit_xor (kw j) (key_term (suc m) (kw m)) =
      λ j m k. ap (bit_xor (kw j)) (sym (key_term-plain (suc m) (kw m) k)) in
    let e4 : next_round_key i (kw b) (kw b3) ≡ kw b4 =
      next_round_key-key_term i b4 (kw b) (kw b3) (omega arith) (omega arith) in
    let e5 = ap (bit_xor (kw b1)) e4 ∙ plain b1 b4 (omega arith) in
    let e6 = ap (bit_xor (kw b2)) e5 ∙ plain b2 b5 (omega arith) in
    let e7 = ap (bit_xor (kw b3)) e6 ∙ plain b3 b6 (omega arith) in
    together (λ p q r s. p ∷ q ∷ r ∷ s ∷ derive_keys n (i + 1) p q r s) e4 e5 e6 e7
    ∙ ap (λ rest. kw b4 ∷ kw b5 ∷ kw b6 ∷ kw b7 ∷ rest)
        (derive_keys-key_word key n (i + 1) b4 (omega arith) (omega arith))
    ∙ ap (slice kw b4) {x = suc (suc (suc (suc (n * 4))))} {y = suc n * 4} (omega arith)

-- The round keys of a key of bytes are the words of its key expansion.
aes_set_key-key_expansion :
    (ctx : AesContext) (key : List ℕ) (iv : Option (List ℕ))
    → All IsByte key
    → (aes_set_key ctx key iv).enc_round_keys ≡ key_expansion key
unfolding aes_set_key key_word
aes_set_key-key_expansion ctx key iv all =
    let byte : (i : ℕ) → item key i < 256 = λ i. item-lt 256 key i (omega arith) all in
    together (λ p q r s. p ∷ q ∷ r ∷ s ∷ derive_keys 10 0 p q r s)
      (concat_4_bytes-word key 0 (byte 0) (byte 1) (byte 2) (byte 3))
      (concat_4_bytes-word key 4 (byte 4) (byte 5) (byte 6) (byte 7))
      (concat_4_bytes-word key 8 (byte 8) (byte 9) (byte 10) (byte 11))
      (concat_4_bytes-word key 12 (byte 12) (byte 13) (byte 14) (byte 15))
    ∙ ap (λ rest. key_word key 0 ∷ key_word key 1 ∷ key_word key 2 ∷ key_word key 3 ∷ rest)
        (derive_keys-key_word key 10 0 0 (omega arith) (omega arith))

-- The encryption of a block of bytes under a key of bytes is AES-128 as FIPS 197 describes it: the
-- cipher, on the state of the input column by column, under the words of the key expansion.
pub aes_encrypt_16_byte_block-fips_cipher :
    (ctx : AesContext) (key : List ℕ) (iv : Option (List ℕ)) (plain : List ℕ)
    → All IsByte key
    → All IsByte plain
    → aes_encrypt_16_byte_block (aes_set_key ctx key iv) plain
      ≡ columns_of (fips_cipher (key_expansion key) (state_of plain))
aes_encrypt_16_byte_block-fips_cipher ctx key iv plain hk hp =
    aes_encrypt_16_byte_block-columns_of ctx key iv plain hk hp
    ∙ ap (λ keys. columns_of (fips_cipher keys (state_of plain)))
        (aes_set_key-key_expansion ctx key iv hk)
