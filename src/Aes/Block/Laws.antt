-- ===== src/Aes/Block/Laws.antt =====
-- The decryption of a block undoes its encryption, under round keys that are 32-bit words.
use e_ssp.Base.{item, ℕ, zero, suc, ◌+◌, ◌-◌, ◌*◌, ◌≤◌, bit_xor-lt, ◌≡◌, refl, ap, arith, ◌∙◌}
use e_ssp.Aes.Field.{forward_mix_col, inverse_mix_col}
use e_ssp.Aes.Field.Mixed.{forward_mix_col-lt}
use e_ssp.Aes.Block.{
  AesContext, Columns, forward_shift, inverse_shift, each, add_round_key, encrypt_rounds,
  decrypt_rounds,
}
use e_ssp.Aes.Block.Rounds.{
  IsWord, AreWords, inverse_shift-forward_shift, forward_shift-AreWords, unmixed,
  add_round_key_twice,
}

abbrev pub next_columns : AesContext → ℕ → Columns → Columns
next_columns ctx base x = add_round_key ctx base (each forward_mix_col (forward_shift x))

encrypt_rounds_last :
    (n : ℕ) (ctx : AesContext) (base : ℕ) (x : Columns)
    → encrypt_rounds (suc n) ctx base x
      ≡ next_columns ctx (base + n * 4) (encrypt_rounds n ctx base x)
unfolding encrypt_rounds
encrypt_rounds_last zero ctx base x = ap (λ b. next_columns ctx b x) (omega arith)
encrypt_rounds_last (suc n) ctx base x =
    encrypt_rounds_last n ctx (base + 4) (next_columns ctx base x)
    ∙ ap (λ b. next_columns ctx b (encrypt_rounds n ctx (base + 4) (next_columns ctx base x)))
        (omega arith)

module _ (ctx : AesContext) (keys : (i : ℕ) → IsWord (item ctx.enc_round_keys i)) where
  pub add_round_key-AreWords :
      (base : ℕ) (x : Columns) → AreWords x → AreWords (add_round_key ctx base x)
  unfolding add_round_key
  add_round_key-AreWords base x h = (
    bit_xor-lt 32 _ x.cx0 (keys base) h.0,
    bit_xor-lt 32 _ x.cx1 (keys (base + 1)) h.1,
    bit_xor-lt 32 _ x.cx2 (keys (base + 2)) h.2,
    bit_xor-lt 32 _ x.cx3 (keys (base + 3)) h.3,
  )

  next_columns-AreWords : (base : ℕ) (x : Columns) → AreWords (next_columns ctx base x)
  next_columns-AreWords base x =
      let y = forward_shift x in
      add_round_key-AreWords base (each forward_mix_col y) (
        forward_mix_col-lt y.cx0,
        forward_mix_col-lt y.cx1,
        forward_mix_col-lt y.cx2,
        forward_mix_col-lt y.cx3,
      )

  -- A round of the decryption against a round of the encryption with the same keys.
  round_undone :
      (base : ℕ) (x : Columns)
      → each inverse_mix_col
          (add_round_key ctx base (inverse_shift (forward_shift (next_columns ctx base x))))
        ≡ forward_shift x
  round_undone base x =
      ap (λ y. each inverse_mix_col (add_round_key ctx base y))
        (inverse_shift-forward_shift (next_columns ctx base x) (next_columns-AreWords base x))
      ∙ ap (each inverse_mix_col)
          (add_round_key_twice ctx base (each forward_mix_col (forward_shift x)))
      ∙ unmixed (forward_shift x) (forward_shift-AreWords x)

  pub decrypt_rounds-encrypt_rounds :
      (n base : ℕ) (x : Columns)
      → 4 ≤ base
      → decrypt_rounds n ctx (base + n * 4 - 4) (forward_shift (encrypt_rounds n ctx base x))
        ≡ forward_shift x
  unfolding decrypt_rounds encrypt_rounds
  decrypt_rounds-encrypt_rounds zero base x h = refl
  decrypt_rounds-encrypt_rounds (suc n) base x h =
      let z = encrypt_rounds n ctx base x in
      let last : base + suc n * 4 - 4 ≡ base + n * 4 = omega arith in
      ap (λ y. decrypt_rounds (suc n) ctx (base + suc n * 4 - 4) (forward_shift y))
        (encrypt_rounds_last n ctx base x)
      ∙ ap (λ b. decrypt_rounds (suc n) ctx b (forward_shift (next_columns ctx (base + n * 4) z)))
          last
      ∙ ap (decrypt_rounds n ctx (base + n * 4 - 4)) (round_undone (base + n * 4) z)
      ∙ decrypt_rounds-encrypt_rounds n base x h
