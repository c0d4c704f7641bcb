-- ===== src/Aes/Block/Keys.antt =====
-- The round keys are 32-bit words.
use e_ssp.Base.{item, ℕ, zero, suc, ◌+◌, ◌^◌, bit_xor-lt, List, Option, All, IsByte, arith}
use e_ssp.Aes.Word.{shl, byte_0}
use e_ssp.Aes.Sbox.Laws.{forward_s_box_compute-lt}
use e_ssp.Aes.Block.{AesContext, next_round_key, derive_keys, aes_set_key}
use e_ssp.Aes.Block.Rounds.{IsWord}
use e_ssp.Aes.Block.Bytes.{item-lt, concat_4_bytes-IsWord}

shl-IsWord : (x k : ℕ) → IsWord (shl x k)
shl-IsWord x k = omega arith

next_round_key-IsWord : (i w0 w3 : ℕ) → IsWord w0 → IsWord (next_round_key i w0 w3)
unfolding next_round_key
next_round_key-IsWord i w0 w3 h =
    let s = forward_s_box_compute-lt (byte_0 w3) (omega arith) in
    bit_xor-lt 32 _ _
      (bit_xor-lt 32 _ _
        (bit_xor-lt 32 _ _ (bit_xor-lt 32 w0 _ h (shl-IsWord _ 24)) (shl-IsWord _ 16))
        (shl-IsWord _ 8))
      (omega arith)

derive_keys-IsWord :
    (n i w0 w1 w2 w3 : ℕ)
    → IsWord w0
    → IsWord w1
    → IsWord w2
    → IsWord w3
    → All IsWord (derive_keys n i w0 w1 w2 w3)
unfolding derive_keys
derive_keys-IsWord zero i w0 w1 w2 w3 h0 h1 h2 h3 = tt
derive_keys-IsWord (suc n) i w0 w1 w2 w3 h0 h1 h2 h3 =
    let h4 = next_round_key-IsWord i w0 w3 h0 in
    let h5 = bit_xor-lt 32 w1 _ h1 h4 in
    let h6 = bit_xor-lt 32 w2 _ h2 h5 in
    let h7 = bit_xor-lt 32 w3 _ h3 h6 in
    (h4, (h5, (h6, (h7, derive_keys-IsWord n (i + 1) _ _ _ _ h4 h5 h6 h7))))

pub aes_set_key-IsWord :
    (ctx : AesContext) (key : List ℕ) (iv : Option (List ℕ))
    → All IsByte key
    → (i : ℕ) → IsWord (item (aes_set_key ctx key iv).enc_round_keys i)
unfolding aes_set_key
aes_set_key-IsWord ctx key iv bytes i =
    let word = concat_4_bytes-IsWord key bytes in
    let derived = derive_keys-IsWord 10 0 _ _ _ _ (word 0) (word 4) (word 8) (word 12) in
    let all : All IsWord (aes_set_key ctx key iv).enc_round_keys =
      (word 0, (word 4, (word 8, (word 12, derived)))) in
    item-lt (2 ^ 32) (aes_set_key ctx key iv).enc_round_keys i (omega arith) all
