-- ===== src/Aes/Word/Laws.antt =====
-- A 32-bit word is its four bytes, and exclusive or goes byte by byte.
use e_ssp.Base.{
  item, ℕ, ◌*◌, ◌+◌, ◌^◌, ◌<◌, bit_or, bit_xor, bit_xor_split, bit_xor_join, bit_or_join, List, [],
  ◌∷◌, ◌≡◌, refl, sym, ap, ap₂, ◌∙◌, arith,
}
use e_ssp.Aes.Word.{
  shl, xor_bytes, byte_0, byte_1, byte_2, byte_3, concat_4_bytes, split_into_4_bytes,
}

-- The word of four bytes.
abbrev pub word : ℕ → ℕ → ℕ → ℕ → ℕ
word a b c d = ((a * 256 + b) * 256 + c) * 256 + d

module _ (op : ℕ → ℕ → ℕ) (join : (k a x : ℕ) → x < 2 ^ k → op (a * 2 ^ k) x ≡ a * 2 ^ k + x) where
  joined :
      (a b c d : ℕ)
      → a < 256
      → b < 256
      → c < 256
      → d < 256
      → op (op (op (shl a 24) (shl b 16)) (shl c 8)) d ≡ word a b c d
  joined a b c d ha hb hc hd =
      let top : shl a 24 ≡ a * 2 ^ 24 = omega arith in
      let next : shl b 16 ≡ b * 2 ^ 16 = omega arith in
      let low : shl c 8 ≡ c * 2 ^ 8 = omega arith in
      let first : op (shl a 24) (shl b 16) ≡ (a * 256 + b) * 2 ^ 16 =
        ap₂ op top next ∙ join 24 a (b * 2 ^ 16) (omega arith) ∙ omega arith in
      let second : op (op (shl a 24) (shl b 16)) (shl c 8) ≡ ((a * 256 + b) * 256 + c) * 2 ^ 8 =
        ap₂ op first low ∙ join 16 (a * 256 + b) (c * 2 ^ 8) (omega arith) ∙ omega arith in
      ap (λ t. op t d) second ∙ join 8 ((a * 256 + b) * 256 + c) d hd

pub xor_bytes-word :
    (a b c d : ℕ) → a < 256 → b < 256 → c < 256 → d < 256 → xor_bytes a b c d ≡ word a b c d
unfolding xor_bytes
xor_bytes-word = joined bit_xor bit_xor_join

pub concat_4_bytes-word :
    (xs : List ℕ) (i : ℕ)
    → item xs i < 256
    → item xs (i + 1) < 256
    → item xs (i + 2) < 256
    → item xs (i + 3) < 256
    → concat_4_bytes xs i ≡ word (item xs i) (item xs (i + 1)) (item xs (i + 2)) (item xs (i + 3))
unfolding concat_4_bytes
concat_4_bytes-word xs i =
    joined bit_or bit_or_join (item xs i) (item xs (i + 1)) (item xs (i + 2)) (item xs (i + 3))

-- Every 32-bit word is the word of its bytes.
pub word-bytes : (w : ℕ) → w < 2 ^ 32 → word (byte_0 w) (byte_1 w) (byte_2 w) (byte_3 w) ≡ w
word-bytes w h = omega arith

module _ (a b c d : ℕ) (ha : a < 256) (hb : b < 256) (hc : c < 256) (hd : d < 256) where
  pub byte_0-word : byte_0 (word a b c d) ≡ a
  byte_0-word = omega arith

  pub byte_1-word : byte_1 (word a b c d) ≡ b
  byte_1-word = omega arith

  pub byte_2-word : byte_2 (word a b c d) ≡ c
  byte_2-word = omega arith

  pub byte_3-word : byte_3 (word a b c d) ≡ d
  byte_3-word = omega arith

  pub word-lt : word a b c d < 2 ^ 32
  word-lt = omega arith

  pub split_into_4_bytes-word : split_into_4_bytes (word a b c d) ≡ a ∷ b ∷ c ∷ d ∷ []
  unfolding split_into_4_bytes
  split_into_4_bytes-word = rw (byte_0-word, byte_1-word, byte_2-word, byte_3-word) refl

pub bit_xor-word :
    (a b c d p q r s : ℕ)
    → b < 256
    → c < 256
    → d < 256
    → q < 256
    → r < 256
    → s < 256
    → bit_xor (word a b c d) (word p q r s)
      ≡ word (bit_xor a p) (bit_xor b q) (bit_xor c r) (bit_xor d s)
bit_xor-word a b c d p q r s hb hc hd hq hr hs =
    bit_xor_split 8 ((a * 256 + b) * 256 + c) ((p * 256 + q) * 256 + r) d s hd hs
    ∙ ap (λ t. t * 256 + bit_xor d s)
        (bit_xor_split 8 (a * 256 + b) (p * 256 + q) c r hc hr
          ∙ ap (λ t. t * 256 + bit_xor c r) (bit_xor_split 8 a p b q hb hq))

pub bytes-bit_xor :
    (x y : ℕ)
    → x < 2 ^ 32
    → y < 2 ^ 32
    → bit_xor x y
      ≡ word
          (bit_xor (byte_0 x) (byte_0 y))
          (bit_xor (byte_1 x) (byte_1 y))
          (bit_xor (byte_2 x) (byte_2 y))
          (bit_xor (byte_3 x) (byte_3 y))
bytes-bit_xor x y hx hy =
    ap₂ bit_xor (sym (word-bytes x hx)) (sym (word-bytes y hy))
    ∙ bit_xor-word (byte_0 x) (byte_1 x) (byte_2 x) (byte_3 x) (byte_0 y) (byte_1 y) (byte_2 y)
        (byte_3 y) (omega arith) (omega arith) (omega arith) (omega arith) (omega arith)
        (omega arith)
