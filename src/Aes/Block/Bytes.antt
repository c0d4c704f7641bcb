-- ===== src/Aes/Block/Bytes.antt =====
-- Blocks of 16 bytes and their four columns.
use e_ssp.Base.{
  item, ℕ, zero, suc, ◌+◌, ◌<◌, List, [], ◌∷◌, ◌++◌, length, All, IsByte, slice, ◌≡◌, refl, ap, ap₂,
  arith, ◌∙◌,
}
use e_ssp.Aes.Word.{concat_4_bytes, split_into_4_bytes}
use e_ssp.Aes.Word.Laws.{word-bytes, word-lt, concat_4_bytes-word, split_into_4_bytes-word}
use e_ssp.Aes.Block.{Columns, read_columns, write_columns}
use e_ssp.Aes.Block.Rounds.{IsWord, AreWords, columns_equal}

pub item-lt :
    (bound : ℕ) (xs : List ℕ) (i : ℕ) → 0 < bound → All (λ x. x < bound) xs → item xs i < bound
item-lt bound [] i h all = h
item-lt bound (x ∷ xs) zero h all = all.0
item-lt bound (x ∷ xs) (suc i) h all = item-lt bound xs i h all.1

slice-suc : (x : ℕ) (xs : List ℕ) (i n : ℕ) → slice (item (x ∷ xs)) (suc i) n ≡ slice (item xs) i n
slice-suc x xs i zero = refl
slice-suc x xs i (suc n) = ap (λ t. item xs i ∷ t) (slice-suc x xs (suc i) n)

slice-item : (n : ℕ) (xs : List ℕ) → length xs ≡ n → slice (item xs) 0 n ≡ xs
slice-item zero [] h = refl
slice-item zero (x ∷ xs) h = absurd (omega arith)
slice-item (suc n) [] h = absurd (omega arith)
slice-item (suc n) (x ∷ xs) h = ap (λ t. x ∷ t) (slice-suc x xs 0 n ∙ slice-item n xs (omega arith))

module _ (xs : List ℕ) (bytes : All IsByte xs) where
  byte : (i : ℕ) → item xs i < 256
  byte i = item-lt 256 xs i (omega arith) bytes

  four_bytes :
      (i : ℕ)
      → split_into_4_bytes (concat_4_bytes xs i)
        ≡ item xs i ∷ item xs (i + 1) ∷ item xs (i + 2) ∷ item xs (i + 3) ∷ []
  four_bytes i =
      ap split_into_4_bytes
        (concat_4_bytes-word xs i (byte i) (byte (i + 1)) (byte (i + 2)) (byte (i + 3)))
      ∙ split_into_4_bytes-word _ _ _ _ (byte i) (byte (i + 1)) (byte (i + 2)) (byte (i + 3))

  pub concat_4_bytes-IsWord : (i : ℕ) → IsWord (concat_4_bytes xs i)
  concat_4_bytes-IsWord i =
      rw (concat_4_bytes-word xs i (byte i) (byte (i + 1)) (byte (i + 2)) (byte (i + 3)))
        (word-lt _ _ _ _ (byte i) (byte (i + 1)) (byte (i + 2)) (byte (i + 3)))

  pub write_columns-read_columns : length xs ≡ 16 → write_columns (read_columns xs) ≡ xs
  unfolding write_columns read_columns
  write_columns-read_columns h =
      ap₂ (◌++◌) (ap₂ (◌++◌) (ap₂ (◌++◌) (four_bytes 0) (four_bytes 4)) (four_bytes 8))
        (four_bytes 12)
      ∙ slice-item 16 xs h

  pub read_columns-AreWords : AreWords (read_columns xs)
  unfolding read_columns
  read_columns-AreWords = (
    concat_4_bytes-IsWord 0,
    concat_4_bytes-IsWord 4,
    concat_4_bytes-IsWord 8,
    concat_4_bytes-IsWord 12,
  )

pub read_columns-write_columns : (y : Columns) → AreWords y → read_columns (write_columns y) ≡ y
unfolding read_columns write_columns split_into_4_bytes
read_columns-write_columns y h =
    let xs = write_columns y in
    columns_equal _ y
      (concat_4_bytes-word xs 0 (omega arith) (omega arith) (omega arith) (omega arith)
        ∙ word-bytes y.cx0 h.0)
      (concat_4_bytes-word xs 4 (omega arith) (omega arith) (omega arith) (omega arith)
        ∙ word-bytes y.cx1 h.1)
      (concat_4_bytes-word xs 8 (omega arith) (omega arith) (omega arith) (omega arith)
        ∙ word-bytes y.cx2 h.2)
      (concat_4_bytes-word xs 12 (omega arith) (omega arith) (omega arith) (omega arith)
        ∙ word-bytes y.cx3 h.3)

pub length-write_columns : (y : Columns) → length (write_columns y) ≡ 16
unfolding write_columns split_into_4_bytes
length-write_columns y = refl
