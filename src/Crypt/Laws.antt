-- ===== src/Crypt/Laws.antt =====
-- `EncryptSSPPacket` builds a packet from which `DecryptSSPPacket` gives the plain one back.
use e_ssp.Base.{
  ℕ, ◌+◌, ◌-◌, ◌*◌, ◌/◌, ◌≤◌, ◌<◌, leb, le→leb, lt→ltb, u8, u32, List, length, length-slice, Array,
  slice, slice_ext, slice-fill, update, fill, fill-append, All, IsByte, ok, fault, Bool-cases, inl,
  inr, ◌≡◌, refl, sym, ap, ap₂, ◌∙◌, arith,
}
use e_ssp.Defs.{FullKey, ssp_stex}
use e_ssp.Cipher.{BlockCipher, aes_encrypt, aes_decrypt}
use e_ssp.Cipher.Laws.{length-aes_encrypt, aes_decrypt-encrypt}
use e_ssp.Crc.{ssp_crc}
use e_ssp.Host.{Globals}
use e_ssp.Crypt.{
  Encrypted, crc_bytes, pack_length, packed_length, plain_body, encrypt_ssp_packet,
  decrypt_ssp_packet,
}
use e_ssp.Crypt.Plain.{
  Fits, length-plain_body, length-plain_packet, packed_length-Fits, plain_body_size, plain_packet,
  plain_packet-IsByte, wraps,
}

length-crc_bytes : (crc : ℕ) → length (crc_bytes crc) ≡ 2
unfolding crc_bytes
length-crc_bytes crc = refl

module _ (cipher : BlockCipher) (rand : ℕ → ℕ) (pt_num : ℕ) (data_in : Array) (n : ℕ)
    (key : FullKey) (g : Globals) (port : pt_num < 200) (short : n ≤ 233) where
  abbrev body : List ℕ
  body = plain_body rand g.rand_calls (g.enc_pkt_count pt_num) (slice data_in 0 n)

  abbrev pub plain : List ℕ
  plain = plain_packet rand g.rand_calls (g.enc_pkt_count pt_num) (slice data_in 0 n)

  short_data : length (slice data_in 0 n) ≤ 233
  short_data = omega (arith, length-slice data_in 0 n)

  length-body : length body + 2 ≡ packed_length n
  length-body =
      length-plain_body rand g.rand_calls (g.enc_pkt_count pt_num) (slice data_in 0 n) short_data
      ∙ ap packed_length (length-slice data_in 0 n)

  length-plain : length plain ≡ packed_length n
  length-plain =
      length-plain_packet rand g.rand_calls (g.enc_pkt_count pt_num) (slice data_in 0 n) short_data
      ∙ ap packed_length (length-slice data_in 0 n)

  pub fits : Fits n
  fits = packed_length-Fits n short

  -- `tmpData` with the body, and with the checksum.
  abbrev blank : Array
  blank j = 0

  slice-body : slice (fill blank 0 body) 0 (packed_length n - 2) ≡ body
  slice-body =
      ap (slice (fill blank 0 body) 0) (omega (arith, length-body)) ∙ slice-fill blank 0 body

  slice-plain :
      slice
        (fill (fill blank 0 body) (packed_length n - 2) (crc_bytes (ssp_crc body)))
        0
        (packed_length n)
      ≡ plain
  unfolding plain_packet
  slice-plain =
      ap₂ (λ k m. slice (fill (fill blank 0 body) k (crc_bytes (ssp_crc body))) 0 m)
        {y = 0 + length body} (omega (arith, length-body)) (sym length-plain)
      ∙ ap (λ a. slice a 0 (length plain))
          (sym (fill-append blank 0 body (crc_bytes (ssp_crc body))))
      ∙ slice-fill blank 0 plain

  pub length-sealed : length (aes_encrypt cipher key plain) ≡ packed_length n
  length-sealed =
      length-aes_encrypt cipher key (packed_length n / 16) plain (length-plain ∙ sym fits.blocks)
      ∙ fits.blocks

  -- What the call leaves.
  abbrev pub encrypted : Encrypted
  encrypted = record {
    data_out = update (fill data_in 1 (aes_encrypt cipher key plain)) 0 ssp_stex;
    length_out = packed_length n + 1;
    globals = record g {
      enc_pkt_count = update g.enc_pkt_count pt_num (u32 (g.enc_pkt_count pt_num + 1));
      rand_calls = g.rand_calls + pack_length n;
      seed_calls = g.seed_calls;
    };
  }

  pub encrypt_ssp_packet-ok : encrypt_ssp_packet cipher rand pt_num data_in n key g ≡ ok encrypted
  unfolding encrypt_ssp_packet
  encrypt_ssp_packet-ok =
      rw
        (
          lt→ltb pt_num 200 port,
          le→leb (0 + length body) 255 (omega (arith, length-body, fits.room)),
          le→leb 2 (packed_length n) (omega (arith, length-body)),
          slice-body,
          le→leb (packed_length n - 2 + length (crc_bytes (ssp_crc body))) 255
              (omega (arith, length-crc_bytes (ssp_crc body), fits.room)),
          slice-plain,
          le→leb (1 + length (aes_encrypt cipher key plain)) 255
              (omega (arith, length-sealed, fits.room)),
          length_byte,
        )
        refl
    where
      length_byte : u8 (packed_length n + 1) ≡ packed_length n + 1
      length_byte = omega (arith, fits.room)

  -- The encrypted bytes stand behind the `SSP_STEX`, and decrypt to the plain packet.
  pub slice-sealed : slice encrypted.data_out 1 (packed_length n) ≡ aes_encrypt cipher key plain
  slice-sealed =
      slice_ext encrypted.data_out (fill data_in 1 (aes_encrypt cipher key plain)) 1
        (packed_length n) (λ j h k. ground arith)
      ∙ ap (slice (fill data_in 1 (aes_encrypt cipher key plain)) 1) (sym length-sealed)
      ∙ slice-fill data_in 1 (aes_encrypt cipher key plain)

  pub decrypted :
      All IsByte (slice data_in 0 n)
      → aes_decrypt cipher key (slice encrypted.data_out 1 (packed_length n)) ≡ plain
  decrypted bytes =
      ap (aes_decrypt cipher key) slice-sealed
      ∙ aes_decrypt-encrypt cipher key (packed_length n / 16) plain (length-plain ∙ sym fits.blocks)
          (plain_packet-IsByte rand g.rand_calls (g.enc_pkt_count pt_num) (slice data_in 0 n)
            short_data bytes)

  decrypt_ssp_packet-ok :
      All IsByte (slice data_in 0 n)
      → decrypt_ssp_packet cipher encrypted.data_out 1 (packed_length n) key
        ≡ ok (fill encrypted.data_out 1 plain)
  unfolding decrypt_ssp_packet
  decrypt_ssp_packet-ok bytes =
      rw (decrypted bytes, le→leb (1 + length plain) 255 (omega (arith, length-plain, fits.room)))
        refl

  -- The encryption of at most 233 bytes at a port below 200 succeeds: it leaves `SSP_STEX` and
  -- then whole blocks, counts the packet modulo 2 ^ 32, and takes one random number for each
  -- byte of packing. Decrypted in place with the same key, the blocks are the plain packet: the
  -- length, the count before the call, the data, the packing, and their checksum.
  pub decrypt_ssp_packet-encrypt_ssp_packet :
      All IsByte (slice data_in 0 n)
      → (e : Encrypted) × (encrypt_ssp_packet cipher rand pt_num data_in n key g ≡ ok e)
        × (e.data_out 0 ≡ ssp_stex)
        × (e.length_out ≡ n + 7 + pack_length n + 1)
        × ((e.length_out - 1) / 16 * 16 ≡ e.length_out - 1)
        × (e.globals.enc_pkt_count
            ≡ update g.enc_pkt_count pt_num (u32 (g.enc_pkt_count pt_num + 1)))
        × (e.globals.rand_calls ≡ g.rand_calls + pack_length n)
        × (buf : Array) × (decrypt_ssp_packet cipher e.data_out 1 (e.length_out - 1) key ≡ ok buf)
        × (slice buf 1 (e.length_out - 1)
            ≡ plain_packet rand g.rand_calls (g.enc_pkt_count pt_num) (slice data_in 0 n))
  decrypt_ssp_packet-encrypt_ssp_packet bytes =
      let less : packed_length n + 1 - 1 ≡ packed_length n = omega arith in
      (
        encrypted,
        encrypt_ssp_packet-ok,
        refl,
        ap (λ k. k + 1) fits.size,
        ap (λ k. k / 16 * 16) less ∙ fits.blocks ∙ sym less,
        refl,
        refl,
        fill encrypted.data_out 1 plain,
        ap (λ k. decrypt_ssp_packet cipher encrypted.data_out 1 k key) less
            ∙ decrypt_ssp_packet-ok bytes,
        ap (slice (fill encrypted.data_out 1 plain) 1) (less ∙ sym length-plain)
            ∙ slice-fill encrypted.data_out 1 plain,
      )

-- The encryption of 234 to 255 bytes at a port below 200 has undefined behaviour: the packed
-- length wraps in an unsigned char, and either the checksum is written before the buffer or the
-- packing past its end.
pub encrypt_ssp_packet-fault :
    (cipher : BlockCipher) (rand : ℕ → ℕ) (pt_num : ℕ) (data_in : Array) (n : ℕ) (key : FullKey)
    (g : Globals)
    → pt_num < 200
    → 234 ≤ n
    → n < 256
    → encrypt_ssp_packet cipher rand pt_num data_in n key g ≡ fault
unfolding encrypt_ssp_packet
encrypt_ssp_packet-fault cipher rand pt_num data_in n key g port long byte =
    let body = plain_body rand g.rand_calls (g.enc_pkt_count pt_num) (slice data_in 0 n) in
    let size =
      plain_body_size rand g.rand_calls (g.enc_pkt_count pt_num) (slice data_in 0 n)
      ∙ ap (λ k. 5 + k + pack_length k) (length-slice data_in 0 n) in
    rw (lt→ltb pt_num 200 port) (elim (Bool-cases (leb (0 + length body) 255)) [
      | inl room ↦ rw (room, wraps n (length body) long byte size room) refl
      | inr over ↦ rw over refl
    ])
