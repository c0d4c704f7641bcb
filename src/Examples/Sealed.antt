-- ===== src/Examples/Sealed.antt =====
-- An encrypted reply with three bytes of data, with the host's count and with another.
use e_ssp.Base.{
  ℕ, ◌+◌, ◌∷◌, [], List, length, slice, slice-fill, fill, fill-before, update, ok, ◌≡◌, refl, sym,
  ap, ◌∙◌, arith,
}
use e_ssp.Defs.{Packet, ssp_stex}
use e_ssp.Cipher.{aes_encrypt}
use e_ssp.Cipher.Laws.{length-aes_encrypt}
use e_ssp.Crypt.{pack_length, packed_length}
use e_ssp.Crypt.Plain.{plain_packet, length-plain_packet}
use e_ssp.Send.{packet_error, decoded, decode_reply}
use e_ssp.Send.Sealed.{IsSealed, decode_reply-sealed, decode_reply-stale}
use e_ssp.Examples.{adding, dice, blank, idle, payout_command, globals}

abbrev reply_data : List ℕ
reply_data = 0xF0 ∷ 1 ∷ 2 ∷ []

abbrev sealed_bytes : List ℕ
sealed_bytes = aes_encrypt adding payout_command.key (plain_packet dice 0 7 reply_data)

packed_length_lem : packed_length 3 ≡ 16
unfolding packed_length pack_length
packed_length_lem = refl

length-sealed_bytes : length sealed_bytes ≡ packed_length 3
length-sealed_bytes =
    length-aes_encrypt adding payout_command.key 1 (plain_packet dice 0 7 reply_data)
      (length-plain_packet dice 0 7 reply_data (omega arith) ∙ packed_length_lem)
    ∙ sym packed_length_lem

abbrev sealed_reply : Packet
sealed_reply = record idle { rx_data = fill (update (update blank 2 17) 3 ssp_stex) 4 sealed_bytes }

sealed_reply-IsSealed : IsSealed adding payout_command.key sealed_reply dice 0 7 reply_data
sealed_reply-IsSealed = record {
  short = omega arith;
  bytes = (omega arith, (omega arith, (omega arith, tt)));
  fits = omega arith;
  size =
      fill-before (update (update blank 2 17) 3 ssp_stex) 4 sealed_bytes 2 (omega arith)
      ∙ ap (λ (n : ℕ). n + 1) (sym packed_length_lem);
  mark = fill-before (update (update blank 2 17) 3 ssp_stex) 4 sealed_bytes 3 (omega arith);
  sealed =
      ap (slice sealed_reply.rx_data 4) (sym length-sealed_bytes)
      ∙ slice-fill (update (update blank 2 17) 3 ssp_stex) 4 sealed_bytes;
}

three_decoded :
    (t : Packet) × (decode_reply adding payout_command
        (record globals { enc_pkt_count = update blank 0 7 })
        sealed_reply
      ≡ ok (decoded t))
    × (t.rx_data 2 ≡ 3)
    × (slice t.rx_data 3 3 ≡ reply_data)
three_decoded =
    decode_reply-sealed adding payout_command (record globals { enc_pkt_count = update blank 0 7 })
      sealed_reply dice 0 7 reply_data sealed_reply-IsSealed (omega arith) refl

decode_reply-stale_example :
    decode_reply adding payout_command globals sealed_reply ≡ ok packet_error
decode_reply-stale_example =
    decode_reply-stale adding payout_command globals sealed_reply dice 0 7 reply_data
      sealed_reply-IsSealed (omega arith) (λ e. absurd (omega (arith, e)))
