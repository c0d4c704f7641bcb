-- ===== src/Aes/Fips/Laws.antt =====
-- Four columns of the code hold a state of FIPS 197, and what each step does to one column.
use e_ssp.Base.{ℕ, ◌+◌, ◌*◌, ◌<◌, bit_xor, List, item, All, IsByte, ◌≡◌, refl, ap, ap₂, ◌∙◌, arith}
use e_ssp.Aes.Word.{byte_0, byte_1, byte_2, byte_3, split_into_4_bytes}
use e_ssp.Aes.Word.Laws.{
  word, word-lt, bytes-bit_xor, byte_0-word, byte_1-word, byte_2-word, byte_3-word,
  concat_4_bytes-word, split_into_4_bytes-word,
}
use e_ssp.Aes.Field.{forward_mix_col, mix_byte}
use e_ssp.Aes.Field.Mixed.{total}
use e_ssp.Aes.Field.Laws.{forward_mix_col-word}
use e_ssp.Aes.Block.{Columns, read_columns, forward_column}
use e_ssp.Aes.Block.Rounds.{IsWord, forward_column-word}
use e_ssp.Aes.Block.Bytes.{item-lt}
use e_ssp.Aes.Fips.{State, sub_byte, mix_columns, state_of, column_of}
use e_ssp.Aes.Fips.Steps.{forward_s_box_compute-sub_byte, total_turn, mix_byte-row}

abbrev pub column_word : State → ℕ → ℕ
column_word s c = word (s 0 c) (s 1 c) (s 2 c) (s 3 c)

-- Four columns that hold a state.
pub record Holds (x : Columns) (s : State) : Type 0 where
  pub bytes : (r c : ℕ) → s r c < 256
  pub col0 : x.cx0 ≡ column_word s 0
  pub col1 : x.cx1 ≡ column_word s 1
  pub col2 : x.cx2 ≡ column_word s 2
  pub col3 : x.cx3 ≡ column_word s 3

pub read_columns-Holds : (xs : List ℕ) → All IsByte xs → Holds (read_columns xs) (state_of xs)
unfolding read_columns
read_columns-Holds xs all =
    let byte : (i : ℕ) → item xs i < 256 = λ i. item-lt 256 xs i (omega arith) all in
    record {
      bytes = λ r c. byte (4 * c + r);
      col0 = concat_4_bytes-word xs 0 (byte 0) (byte 1) (byte 2) (byte 3);
      col1 = concat_4_bytes-word xs 4 (byte 4) (byte 5) (byte 6) (byte 7);
      col2 = concat_4_bytes-word xs 8 (byte 8) (byte 9) (byte 10) (byte 11);
      col3 = concat_4_bytes-word xs 12 (byte 12) (byte 13) (byte 14) (byte 15);
    }

module _ (s : State) (bytes : (r c : ℕ) → s r c < 256) where
  pub split_column : (c : ℕ) → split_into_4_bytes (column_word s c) ≡ column_of s c
  split_column c =
      split_into_4_bytes-word (s 0 c) (s 1 c) (s 2 c) (s 3 c) (bytes 0 c) (bytes 1 c) (bytes 2 c)
        (bytes 3 c)

  byte_0-column : (c : ℕ) → byte_0 (column_word s c) ≡ s 0 c
  byte_0-column c =
      byte_0-word (s 0 c) (s 1 c) (s 2 c) (s 3 c) (bytes 0 c) (bytes 1 c) (bytes 2 c) (bytes 3 c)

  byte_1-column : (c : ℕ) → byte_1 (column_word s c) ≡ s 1 c
  byte_1-column c =
      byte_1-word (s 0 c) (s 1 c) (s 2 c) (s 3 c) (bytes 0 c) (bytes 1 c) (bytes 2 c) (bytes 3 c)

  byte_2-column : (c : ℕ) → byte_2 (column_word s c) ≡ s 2 c
  byte_2-column c =
      byte_2-word (s 0 c) (s 1 c) (s 2 c) (s 3 c) (bytes 0 c) (bytes 1 c) (bytes 2 c) (bytes 3 c)

  byte_3-column : (c : ℕ) → byte_3 (column_word s c) ≡ s 3 c
  byte_3-column c =
      byte_3-word (s 0 c) (s 1 c) (s 2 c) (s 3 c) (bytes 0 c) (bytes 1 c) (bytes 2 c) (bytes 3 c)

  -- A round key word added to a column.
  pub add_column :
      (k c : ℕ)
      → IsWord k
      → bit_xor k (column_word s c)
        ≡ word
            (bit_xor (byte_0 k) (s 0 c))
            (bit_xor (byte_1 k) (s 1 c))
            (bit_xor (byte_2 k) (s 2 c))
            (bit_xor (byte_3 k) (s 3 c))
  add_column k c h =
      bytes-bit_xor k (column_word s c) h
        (word-lt (s 0 c) (s 1 c) (s 2 c) (s 3 c) (bytes 0 c) (bytes 1 c) (bytes 2 c) (bytes 3 c))
      ∙ rw (byte_0-column c, byte_1-column c, byte_2-column c, byte_3-column c) refl

  -- Bytes of four columns, substituted.
  pub sub_column :
      (i j k l : ℕ)
      → forward_column (column_word s i) (column_word s j) (column_word s k) (column_word s l)
        ≡ word (sub_byte (s 0 i)) (sub_byte (s 1 j)) (sub_byte (s 2 k)) (sub_byte (s 3 l))
  sub_column i j k l =
      let sub = forward_s_box_compute-sub_byte in
      forward_column-word (column_word s i) (column_word s j) (column_word s k) (column_word s l)
      ∙ rw (byte_0-column i, byte_1-column j, byte_2-column k, byte_3-column l)
          (rw
            (
              sub (s 0 i) (bytes 0 i),
              sub (s 1 j) (bytes 1 j),
              sub (s 2 k) (bytes 2 k),
              sub (s 3 l) (bytes 3 l),
            )
            refl)

  pub mix_column : (c : ℕ) → forward_mix_col (column_word s c) ≡ column_word (mix_columns s) c
  unfolding mix_columns
  mix_column i =
      let a = s 0 i in
      let b = s 1 i in
      let c = s 2 i in
      let d = s 3 i in
      let turn1 = total_turn a b c d in
      let turn2 = turn1 ∙ total_turn b c d a in
      let turn3 = turn2 ∙ total_turn c d a b in
      forward_mix_col-word a b c d (bytes 0 i) (bytes 1 i) (bytes 2 i) (bytes 3 i)
      ∙ ap₂ (λ p q. word p q (mix_byte (total a b c d) c d) (mix_byte (total a b c d) d a))
          (mix_byte-row a b c d (bytes 0 i) (bytes 1 i))
          (ap (λ t. mix_byte t b c) turn1 ∙ mix_byte-row b c d a (bytes 1 i) (bytes 2 i))
      ∙ ap₂ (λ p q. word (mix_columns s 0 i) (mix_columns s 1 i) p q)
          (ap (λ t. mix_byte t c d) turn2 ∙ mix_byte-row c d a b (bytes 2 i) (bytes 3 i))
          (ap (λ t. mix_byte t d a) turn3 ∙ mix_byte-row d a b c (bytes 3 i) (bytes 0 i))
