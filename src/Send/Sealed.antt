-- ===== src/Send/Sealed.antt =====
-- The decoding of an encrypted reply by `SSPSendCommand`.
use e_ssp.Base.{
  ℕ, ◌+◌, ◌-◌, ◌/◌, ◌^◌, ◌≤◌, ◌<◌, lt→ltb, le→leb, ◌==◌, u8, bit_and, false, List, [], ◌∷◌, ◌++◌,
  length, length-append, Array, slice, slice-fill, fill-at, fill-append, fill, ok, All, IsByte, ◌≡◌,
  ◌≢◌, refl, sym, ap, ◌∙◌, arith,
}
use e_ssp.Defs.{Command, Packet, FullKey, ssp_stex}
use e_ssp.Cipher.{BlockCipher, aes_encrypt}
use e_ssp.Cipher.Laws.{aes_decrypt-encrypt}
use e_ssp.Crc.{ssp_crc}
use e_ssp.Host.{Globals}
use e_ssp.Crypt.{crc_bytes, packed_length, plain_body, decrypt_ssp_packet}
use e_ssp.Crypt.Plain.{
  plain_packet, Fits, packed_length-Fits, length-plain_body, length-plain_packet,
  plain_packet-IsByte,
}
use e_ssp.Send.{packet_error, decoded, checks_out, restore_packet, decode_reply}
use e_ssp.Send.Opened.{
  ==_same, slice-fill_inside, opened, opened_length, opened-body, opened_low, opened_high,
  opened_count, opened_size, opened_data,
}

-- A packet in the receive buffer that the unit has encrypted: `SSP_STEX` and the blocks of a
-- plain packet with the unit's count and its data.
pub record IsSealed (cipher : BlockCipher) (key : FullKey) (ss : Packet) (rand : ℕ → ℕ)
    (calls count : ℕ) (ys : List ℕ) : Type 0 where
  pub short : length ys ≤ 233
  pub bytes : All IsByte ys
  pub fits : count < 2 ^ 32
  pub size : ss.rx_data 2 ≡ packed_length (length ys) + 1
  pub mark : ss.rx_data 3 ≡ ssp_stex
  pub sealed :
      slice ss.rx_data 4 (packed_length (length ys))
      ≡ aes_encrypt cipher key (plain_packet rand calls count ys)

module _ (cipher : BlockCipher) (cmd : Command) (g : Globals) (ss : Packet) (rand : ℕ → ℕ)
    (calls count : ℕ) (ys : List ℕ) (is : IsSealed cipher cmd.key ss rand calls count ys) where
  abbrev m : ℕ
  m = packed_length (length ys)

  abbrev rx : Array
  rx = opened ss.rx_data rand calls count ys is.short

  blocks : Fits (length ys)
  blocks = packed_length-Fits (length ys) is.short

  size_plain : length (plain_packet rand calls count ys) ≡ m
  size_plain = length-plain_packet rand calls count ys is.short

  size_body : length (plain_body rand calls count ys) + 2 ≡ m
  size_body = length-plain_body rand calls count ys is.short

  unsealed : decrypt_ssp_packet cipher ss.rx_data 4 m cmd.key ≡ ok rx
  unfolding decrypt_ssp_packet
  unsealed =
      rw
        (
          is.sealed,
          aes_decrypt-encrypt cipher cmd.key (m / 16) (plain_packet rand calls count ys)
              (size_plain ∙ sym blocks.blocks)
              (plain_packet-IsByte rand calls count ys is.short is.bytes),
          le→leb (4 + length (plain_packet rand calls count ys)) 255
              (omega (arith, size_plain, blocks.room)),
        )
        refl

  checks_out-count : (k : ℕ) → checks_out cipher k m (record ss { rx_data = rx }) ≡ ok (count == k)
  unfolding checks_out
  checks_out-count k =
      let bcrc = ssp_crc (plain_body rand calls count ys) in
      let next : rx 2 + 1 ≡ m + 2 =
        omega (arith, opened_length ss.rx_data rand calls count ys is.short, is.size) in
      let last : rx 2 + 2 ≡ m + 3 =
        omega (arith, opened_length ss.rx_data rand calls count ys is.short, is.size) in
      rw
        (
          opened-body ss.rx_data rand calls count ys is.short,
          le→leb (4 + (m - 2)) 255 (omega (arith, blocks.room)),
          next,
          last,
          lt→ltb (m + 2) 255 (omega (arith, blocks.room)),
          lt→ltb (m + 3) 255 (omega (arith, blocks.room)),
          opened_low ss.rx_data rand calls count ys is.short,
          opened_high ss.rx_data rand calls count ys is.short,
          opened_count ss.rx_data rand calls count ys is.short is.fits,
        )
        (rw (==_same (u8 (bit_and bcrc 0xFF)), ==_same (u8 (bit_and (bcrc / 2 ^ 8) 0xFF))) refl)

  -- The start of the restored packet, and its checksum.
  abbrev head : List ℕ
  head = rx 0 ∷ rx 1 ∷ length ys ∷ ys

  abbrev restored_crc : List ℕ
  restored_crc = crc_bytes (ssp_crc (slice (fill (λ _. 0) 0 head) 1 (u8 (length ys + 5) - 3)))

  abbrev restored : Packet
  restored = record ss {
    rx_data = fill rx 0 (head ++ restored_crc);
    rx_buffer_length = u8 (length ys + 5);
  }

  slice-restored :
      slice (fill (fill (λ _. 0) 0 head) (3 + length ys) restored_crc) 0 (u8 (length ys + 5))
      ≡ head ++ restored_crc
  unfolding crc_bytes
  slice-restored =
      ap (λ i. slice (fill (fill (λ _. 0) 0 head) i restored_crc) 0 (u8 (length ys + 5)))
        {x = 3 + length ys} {y = 0 + length head} (omega arith)
      ∙ ap (slice (fill (fill (λ _. 0) 0 head) (0 + length head) restored_crc) 0)
          {y = length (head ++ restored_crc)}
          (omega (arith, length-append head restored_crc, is.short))
      ∙ ap (λ a. slice a 0 (length (head ++ restored_crc)))
          (sym (fill-append (λ _. 0) 0 head restored_crc))
      ∙ slice-fill (λ _. 0) 0 (head ++ restored_crc)

  restore_packet-restored : restore_packet cipher (record ss { rx_data = rx }) ≡ ok restored
  unfolding restore_packet
  restore_packet-restored =
      rw
        (
          opened_size ss.rx_data rand calls count ys is.short,
          le→leb (9 + length ys) 255 (omega (arith, is.short)),
          opened_data ss.rx_data rand calls count ys is.short,
          le→leb (0 + length head) 255 (omega (arith, is.short)),
          le→leb (3 + length ys + length restored_crc) 255 (omega (arith, two, is.short)),
          slice-restored,
          le→leb (0 + length (head ++ restored_crc)) 255
              (omega (arith, two, length-append head restored_crc, is.short)),
        )
        refl
    where
      two : length restored_crc ≡ 2
      two = unfold crc_bytes in refl

  -- An encrypted reply of at most 233 bytes that carries the host's count is decoded to a packet
  -- with the data of the reply and its length, as an unencrypted reply would have left it.
  pub decode_reply-sealed :
      cmd.ssp_address < 200
      → g.enc_pkt_count cmd.ssp_address ≡ count
      → (t : Packet) × (decode_reply cipher cmd g ss ≡ ok (decoded t))
        × (t.rx_data 2 ≡ length ys)
        × (slice t.rx_data 3 (length ys) ≡ ys)
  unfolding decode_reply
  decode_reply-sealed port same =
      let enough : u8 (m + 1 + 255) ≡ m = omega (arith, blocks.room) in
      (
        restored,
        rw
            (
              is.mark,
              is.size,
              enough,
              unsealed,
              lt→ltb cmd.ssp_address 200 port,
              same,
              checks_out-count count,
              ==_same count,
              restore_packet-restored,
            )
            refl,
        fill-at rx 0 (rx 0 ∷ rx 1 ∷ []) (length ys) _,
        slice-fill_inside rx 0 (rx 0 ∷ rx 1 ∷ length ys ∷ []) ys restored_crc,
      )

  -- An encrypted reply that carries another count than the host's is refused.
  pub decode_reply-stale :
      cmd.ssp_address < 200
      → g.enc_pkt_count cmd.ssp_address ≢ count
      → decode_reply cipher cmd g ss ≡ ok packet_error
  unfolding decode_reply
  decode_reply-stale port other =
      let enough : u8 (m + 1 + 255) ≡ m = omega (arith, blocks.room) in
      let differs : (count == g.enc_pkt_count cmd.ssp_address) ≡ false = ground arith in
      rw
        (
          is.mark,
          is.size,
          enough,
          unsealed,
          lt→ltb cmd.ssp_address 200 port,
          checks_out-count (g.enc_pkt_count cmd.ssp_address),
          differs,
        )
        refl
