-- ===== src/Aes/Block/Rounds.antt =====
-- Each part of a round undoes its counterpart, and the rounds of the decryption undo those of the
-- encryption.
use e_ssp.Base.{ℕ, ◌<◌, ◌^◌, bit_xor, bit_xor_undo, bit_xor_comm, ◌≡◌, ap, arith, ◌∙◌}
use e_ssp.Aes.Word.{byte_0, byte_1, byte_2, byte_3}
use e_ssp.Aes.Word.Laws.{
  word, word-lt, word-bytes, xor_bytes-word, byte_0-word, byte_1-word, byte_2-word, byte_3-word,
}
use e_ssp.Aes.Field.{forward_mix_col, inverse_mix_col}
use e_ssp.Aes.Field.Laws.{inverse_mix_col-forward_mix_col}
use e_ssp.Aes.Sbox.{forward_s_box_compute, inverse_s_box_compute}
use e_ssp.Aes.Sbox.Laws.{inverse_s_box_compute-forward_s_box_compute, forward_s_box_compute-lt}
use e_ssp.Aes.Block.{
  AesContext, Columns, forward_column, inverse_column, forward_shift, inverse_shift, each,
  add_round_key,
}

abbrev pub IsWord : ℕ → Type 0
IsWord w = w < 2 ^ 32

abbrev pub AreWords : Columns → Type 0
AreWords x = IsWord x.cx0 × IsWord x.cx1 × IsWord x.cx2 × IsWord x.cx3

module _ (a b c d : ℕ) where
  s0-lt : forward_s_box_compute (byte_0 a) < 256
  s0-lt = forward_s_box_compute-lt (byte_0 a) (omega arith)

  s1-lt : forward_s_box_compute (byte_1 b) < 256
  s1-lt = forward_s_box_compute-lt (byte_1 b) (omega arith)

  s2-lt : forward_s_box_compute (byte_2 c) < 256
  s2-lt = forward_s_box_compute-lt (byte_2 c) (omega arith)

  s3-lt : forward_s_box_compute (byte_3 d) < 256
  s3-lt = forward_s_box_compute-lt (byte_3 d) (omega arith)

  pub forward_column-word :
      forward_column a b c d
      ≡ word
          (forward_s_box_compute (byte_0 a))
          (forward_s_box_compute (byte_1 b))
          (forward_s_box_compute (byte_2 c))
          (forward_s_box_compute (byte_3 d))
  unfolding forward_column
  forward_column-word = xor_bytes-word _ _ _ _ s0-lt s1-lt s2-lt s3-lt

  forward_column-lt : IsWord (forward_column a b c d)
  forward_column-lt = rw forward_column-word (word-lt _ _ _ _ s0-lt s1-lt s2-lt s3-lt)

  byte_0-forward_column : byte_0 (forward_column a b c d) ≡ forward_s_box_compute (byte_0 a)
  byte_0-forward_column =
      ap byte_0 forward_column-word ∙ byte_0-word _ _ _ _ s0-lt s1-lt s2-lt s3-lt

  byte_1-forward_column : byte_1 (forward_column a b c d) ≡ forward_s_box_compute (byte_1 b)
  byte_1-forward_column =
      ap byte_1 forward_column-word ∙ byte_1-word _ _ _ _ s0-lt s1-lt s2-lt s3-lt

  byte_2-forward_column : byte_2 (forward_column a b c d) ≡ forward_s_box_compute (byte_2 c)
  byte_2-forward_column =
      ap byte_2 forward_column-word ∙ byte_2-word _ _ _ _ s0-lt s1-lt s2-lt s3-lt

  byte_3-forward_column : byte_3 (forward_column a b c d) ≡ forward_s_box_compute (byte_3 d)
  byte_3-forward_column =
      ap byte_3 forward_column-word ∙ byte_3-word _ _ _ _ s0-lt s1-lt s2-lt s3-lt

-- A column comes back from the four columns that its bytes went to.
inverse_column-forward_column :
    (a b c d p q r s t u v w x : ℕ)
    → IsWord a
    → inverse_column
        (forward_column a b c d)
        (forward_column p a q r)
        (forward_column s t a u)
        (forward_column v w x a)
      ≡ a
unfolding inverse_column
inverse_column-forward_column a b c d p q r s t u v w x h =
    let back = inverse_s_box_compute-forward_s_box_compute in
    let b0 =
      ap inverse_s_box_compute (byte_0-forward_column a b c d) ∙ back (byte_0 a) (omega arith) in
    let b1 =
      ap inverse_s_box_compute (byte_1-forward_column p a q r) ∙ back (byte_1 a) (omega arith) in
    let b2 =
      ap inverse_s_box_compute (byte_2-forward_column s t a u) ∙ back (byte_2 a) (omega arith) in
    let b3 =
      ap inverse_s_box_compute (byte_3-forward_column v w x a) ∙ back (byte_3 a) (omega arith) in
    rw (b0, b1, b2, b3)
      (xor_bytes-word (byte_0 a) (byte_1 a) (byte_2 a) (byte_3 a) (omega arith) (omega arith)
          (omega arith) (omega arith)
        ∙ word-bytes a h)

pub columns_equal :
    (x y : Columns) → x.cx0 ≡ y.cx0 → x.cx1 ≡ y.cx1 → x.cx2 ≡ y.cx2 → x.cx3 ≡ y.cx3 → x ≡ y
columns_equal x y p q r s i = record { cx0 = p i; cx1 = q i; cx2 = r i; cx3 = s i }

pub inverse_shift-forward_shift : (x : Columns) → AreWords x → inverse_shift (forward_shift x) ≡ x
unfolding inverse_shift forward_shift
inverse_shift-forward_shift x h =
    columns_equal _ x
      (inverse_column-forward_column x.cx0 x.cx1 x.cx2 x.cx3 x.cx3 x.cx1 x.cx2 x.cx2 x.cx3 x.cx1
        x.cx1 x.cx2 x.cx3 h.0)
      (inverse_column-forward_column x.cx1 x.cx2 x.cx3 x.cx0 x.cx0 x.cx2 x.cx3 x.cx3 x.cx0 x.cx2
        x.cx2 x.cx3 x.cx0 h.1)
      (inverse_column-forward_column x.cx2 x.cx3 x.cx0 x.cx1 x.cx1 x.cx3 x.cx0 x.cx0 x.cx1 x.cx3
        x.cx3 x.cx0 x.cx1 h.2)
      (inverse_column-forward_column x.cx3 x.cx0 x.cx1 x.cx2 x.cx2 x.cx0 x.cx1 x.cx1 x.cx2 x.cx0
        x.cx0 x.cx1 x.cx2 h.3)

pub forward_shift-AreWords : (x : Columns) → AreWords (forward_shift x)
unfolding forward_shift
forward_shift-AreWords x = (
  forward_column-lt x.cx0 x.cx1 x.cx2 x.cx3,
  forward_column-lt x.cx1 x.cx2 x.cx3 x.cx0,
  forward_column-lt x.cx2 x.cx3 x.cx0 x.cx1,
  forward_column-lt x.cx3 x.cx0 x.cx1 x.cx2,
)

pub unmixed : (x : Columns) → AreWords x → each inverse_mix_col (each forward_mix_col x) ≡ x
unmixed x h =
    columns_equal _ x (inverse_mix_col-forward_mix_col x.cx0 h.0)
      (inverse_mix_col-forward_mix_col x.cx1 h.1) (inverse_mix_col-forward_mix_col x.cx2 h.2)
      (inverse_mix_col-forward_mix_col x.cx3 h.3)

xor_twice : (k x : ℕ) → bit_xor k (bit_xor k x) ≡ x
xor_twice k x = ap (bit_xor k) (bit_xor_comm k x) ∙ bit_xor_comm k (bit_xor x k) ∙ bit_xor_undo x k

pub add_round_key_twice :
    (ctx : AesContext) (base : ℕ) (x : Columns)
    → add_round_key ctx base (add_round_key ctx base x) ≡ x
unfolding add_round_key
add_round_key_twice ctx base x =
    columns_equal _ x (xor_twice _ x.cx0) (xor_twice _ x.cx1) (xor_twice _ x.cx2)
      (xor_twice _ x.cx3)
