-- ===== src/Send/Opened.antt =====
-- The receive buffer with a decrypted packet in it: where `SSPSendCommand` finds each part.
use mathlib.Core.List.{append_assoc}
use e_ssp.Base.{
  ℕ, ◌+◌, ◌-◌, ◌/◌, ◌^◌, ◌≤◌, ◌<◌, ◌==◌, u8, bit_and, true, List, [], ◌∷◌, ◌++◌, length,
  length-append, Array, slice, slice-fill-append, fill-at, fill-before, fill-append, fill, ◌≡◌, sym,
  ap, ◌∙◌, arith,
}
use e_ssp.Cipher.{le_bytes}
use e_ssp.Crc.{ssp_crc}
use e_ssp.Crypt.{crc_bytes, packing, pack_length, packed_length, plain_body}
use e_ssp.Crypt.Plain.{plain_packet, length-plain_body}
use e_ssp.Send.{le32_at}

pub ==_same : (x : ℕ) → (x == x) ≡ true
==_same x = ground arith

pub slice-fill_inside :
    (a : Array) (i : ℕ) (ps qs rs : List ℕ)
    → slice (fill a i (ps ++ (qs ++ rs))) (i + length ps) (length qs) ≡ qs
slice-fill_inside a i ps qs rs =
    ap (λ f. slice f (i + length ps) (length qs)) (fill-append a i ps (qs ++ rs))
    ∙ slice-fill-append (fill a i ps) (i + length ps) qs rs

le32_at-count :
    (a : Array) (v : ℕ)
    → a 5 ≡ u8 v
    → a 6 ≡ u8 (v / 256)
    → a 7 ≡ u8 (v / 256 / 256)
    → a 8 ≡ u8 (v / 256 / 256 / 256)
    → v < 2 ^ 32
    → le32_at a 5 ≡ v
le32_at-count a v e0 e1 e2 e3 fits = omega arith

module _ (rx : Array) (rand : ℕ → ℕ) (calls count : ℕ) (ys : List ℕ) (short : length ys ≤ 233) where
  abbrev pub body : List ℕ
  body = plain_body rand calls count ys

  abbrev pub crc : ℕ
  crc = ssp_crc body

  -- The receive buffer with the decrypted packet.
  abbrev pub opened : Array
  opened = fill rx 4 (plain_packet rand calls count ys)

  pub opened_length : opened 2 ≡ rx 2
  opened_length = fill-before rx 4 (plain_packet rand calls count ys) 2 (omega arith)

  pub opened-body : slice opened 4 (packed_length (length ys) - 2) ≡ body
  unfolding plain_packet
  opened-body =
      ap (slice opened 4) (omega (arith, length-plain_body rand calls count ys short))
      ∙ slice-fill-append rx 4 body (crc_bytes crc)

  pub opened_low : opened (packed_length (length ys) + 2) ≡ u8 (bit_and crc 0xFF)
  unfolding plain_packet crc_bytes
  opened_low =
      ap opened {y = 4 + length body} (omega (arith, length-plain_body rand calls count ys short))
      ∙ fill-at rx 4 body _ _

  pub opened_high : opened (packed_length (length ys) + 3) ≡ u8 (bit_and (crc / 2 ^ 8) 0xFF)
  unfolding plain_packet crc_bytes
  opened_high =
      ap (λ zs. fill rx 4 zs (packed_length (length ys) + 3))
        (sym (append_assoc body (u8 (bit_and crc 0xFF) ∷ []) _))
      ∙ ap (fill rx 4 ((body ++ u8 (bit_and crc 0xFF) ∷ []) ++ _))
          {y = 4 + length (body ++ u8 (bit_and crc 0xFF) ∷ [])}
          (omega (
            arith,
            length-plain_body rand calls count ys short,
            length-append body (u8 (bit_and crc 0xFF) ∷ []),
          ))
      ∙ fill-at rx 4 (body ++ u8 (bit_and crc 0xFF) ∷ []) _ []

  pub opened_count : count < 2 ^ 32 → le32_at opened 5 ≡ count
  unfolding plain_packet plain_body le_bytes
  opened_count fits =
      let n = length ys in
      let c0 = u8 count in
      let c1 = u8 (count / 256) in
      let c2 = u8 (count / 256 / 256) in
      le32_at-count opened count (fill-at rx 4 (n ∷ []) c0 _) (fill-at rx 4 (n ∷ c0 ∷ []) c1 _)
        (fill-at rx 4 (n ∷ c0 ∷ c1 ∷ []) c2 _) (fill-at rx 4 (n ∷ c0 ∷ c1 ∷ c2 ∷ []) _ _) fits

  pub opened_size : opened 4 ≡ length ys
  unfolding plain_packet plain_body
  opened_size = fill-at rx 4 [] (length ys) _

  pub opened_data : slice opened 9 (length ys) ≡ ys
  unfolding plain_packet plain_body le_bytes
  opened_data =
      let n = length ys in
      let pad = packing rand calls (pack_length n) in
      let c0 = u8 count in
      let c1 = u8 (count / 256) in
      let c2 = u8 (count / 256 / 256) in
      let c3 = u8 (count / 256 / 256 / 256) in
      ap (λ zs. slice (fill rx 4 (n ∷ c0 ∷ c1 ∷ c2 ∷ c3 ∷ zs)) 9 n)
        (append_assoc ys pad (crc_bytes crc))
      ∙ slice-fill_inside rx 4 (n ∷ c0 ∷ c1 ∷ c2 ∷ c3 ∷ []) ys (pad ++ crc_bytes crc)
