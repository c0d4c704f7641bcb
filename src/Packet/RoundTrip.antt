-- ===== src/Packet/RoundTrip.antt =====
-- A frame that reaches `SSPDataIn` is accepted, and its packet is what was framed.
use mathlib.Core.List.{append_assoc}
use e_ssp.Base.{
  ℕ, suc, ◌+◌, ◌-◌, ◌/◌, ◌^◌, ◌≤◌, u8, bit_and, true, false, List, [], ◌∷◌, ◌++◌, length,
  length-append, slice, update, fill, slice-fill, slice-fill-append, fill-at, ok, ◌>>=◌, ◌≡◌, ◌≢◌,
  refl, sym, ap, ◌∙◌, arith,
}
use e_ssp.Defs.{Packet, ssp_stx}
use e_ssp.Crc.{ssp_crc}
use e_ssp.Crypt.{crc_bytes}
use e_ssp.Packet.{stuff, frame_body, check_packet, end_of_packet, receive}
use e_ssp.Packet.Frame.{raw_packet, wire_frame}
use e_ssp.Packet.Receive.{
  IsOpen, measured, deliver, deliver_lem, receive_header, receive_payload, receive-append,
}

-- The receiver when it has accepted the packet.
abbrev pub received : Packet → ℕ → List ℕ → Packet
received ss a xs = record ss {
  rx_data = fill ss.rx_data 0 (raw_packet a xs);
  rx_ptr = 0;
  rx_buffer_length = length xs + 5;
  new_response = true;
  check_stuff = false;
}

-- The receiver at the last byte.
abbrev complete : Packet → ℕ → List ℕ → Packet
complete ss a xs = record ss {
  rx_data = fill ss.rx_data 0 (raw_packet a xs);
  rx_ptr = length xs + 5;
  rx_buffer_length = length xs + 5;
  check_stuff = false;
}

module _ (ss : Packet) (a : ℕ) (xs : List ℕ) where
  abbrev sum_of_frame : ℕ
  sum_of_frame = ssp_crc (frame_body a xs)

  abbrev lo : ℕ
  lo = u8 (bit_and sum_of_frame 0xFF)

  abbrev hi : ℕ
  hi = u8 (bit_and (sum_of_frame / 2 ^ 8) 0xFF)

  length-frame_body : length (frame_body a xs) ≡ length xs + 2
  unfolding frame_body
  length-frame_body = omega arith

  covered : slice (fill ss.rx_data 0 (raw_packet a xs)) 1 (length xs + 5 - 3) ≡ frame_body a xs
  unfolding raw_packet fill
  covered =
      ap (slice (fill ss.rx_data 0 (raw_packet a xs)) 1) (size (length xs) length-frame_body)
      ∙ slice-fill-append (update ss.rx_data 0 ssp_stx) 1 (frame_body a xs) (crc_bytes sum_of_frame)
    where
      size : (n : ℕ) → length (frame_body a xs) ≡ n + 2 → n + 5 - 3 ≡ length (frame_body a xs)
      size n h = omega (arith, h)

  pub address_byte : fill ss.rx_data 0 (raw_packet a xs) 1 ≡ a
  unfolding raw_packet frame_body
  address_byte = fill-at ss.rx_data 0 (ssp_stx ∷ []) a (length xs ∷ xs ++ crc_bytes sum_of_frame)

  low_byte :
      fill ss.rx_data 0 (raw_packet a xs) (length xs + 5 - 2) ≡ u8 (bit_and sum_of_frame 0xFF)
  unfolding raw_packet crc_bytes
  low_byte =
      ap (fill ss.rx_data 0 (raw_packet a xs)) (index (length xs) length-frame_body)
      ∙ fill-at ss.rx_data 0 (ssp_stx ∷ frame_body a xs) _ _
    where
      index :
          (n : ℕ)
          → length (frame_body a xs) ≡ n + 2
          → n + 5 - 2 ≡ 0 + suc (length (frame_body a xs))
      index n h = omega (arith, h)

  high_byte :
      fill ss.rx_data 0 (raw_packet a xs) (length xs + 5 - 1)
      ≡ u8 (bit_and (sum_of_frame / 2 ^ 8) 0xFF)
  unfolding raw_packet crc_bytes
  high_byte =
      ap (λ ys. fill ss.rx_data 0 (ssp_stx ∷ ys) (length xs + 5 - 1))
        (sym (append_assoc (frame_body a xs) (lo ∷ []) (hi ∷ [])))
      ∙ ap (fill ss.rx_data 0 (ssp_stx ∷ (frame_body a xs ++ lo ∷ []) ++ hi ∷ []))
          (index (length xs) length-frame_body (length-append (frame_body a xs) (lo ∷ [])))
      ∙ fill-at ss.rx_data 0 (ssp_stx ∷ frame_body a xs ++ lo ∷ []) hi []
    where
      index :
          (n : ℕ)
          → length (frame_body a xs) ≡ n + 2
          → length (frame_body a xs ++ lo ∷ []) ≡ length (frame_body a xs) + 1
          → n + 5 - 1 ≡ 0 + suc (length (frame_body a xs ++ lo ∷ []))
      index n h k = omega (arith, h, k)

  check_packet-accepts :
      bit_and a ssp_stx ≡ ss.ssp_address → check_packet (complete ss a xs) ≡ ok true
  unfolding check_packet
  check_packet-accepts us = rw (address_byte, covered, low_byte, high_byte) (ground arith)

  end_of_packet-accepts :
      bit_and a ssp_stx ≡ ss.ssp_address → end_of_packet (complete ss a xs) ≡ ok (received ss a xs)
  unfolding end_of_packet
  end_of_packet-accepts us = ground (arith, check_packet-accepts us)

  delivered : deliver (measured ss a (length xs)) (xs ++ crc_bytes sum_of_frame) ≡ complete ss a xs
  unfolding raw_packet frame_body fill crc_bytes
  delivered =
      deliver_lem (xs ++ crc_bytes sum_of_frame) (measured ss a (length xs)) refl
      ∙ ap
          (λ n. record (measured ss a (length xs)) {
            rx_data = fill ss.rx_data 0 (raw_packet a xs);
            rx_ptr = n;
          })
          (omega (arith, length-append xs (crc_bytes sum_of_frame)))

  unstuffed_header :
      a ≢ ssp_stx
      → length xs ≢ ssp_stx
      → wire_frame a xs ≡ (ssp_stx ∷ a ∷ length xs ∷ []) ++ stuff (xs ++ crc_bytes sum_of_frame)
  unfolding wire_frame frame_body stuff
  unstuffed_header ne ne' = ground arith

  receive-payload_bytes :
      length xs ≤ 250
      → receive (stuff (xs ++ crc_bytes sum_of_frame)) (measured ss a (length xs))
        ≡ end_of_packet (deliver (measured ss a (length xs)) (xs ++ crc_bytes sum_of_frame))
  unfolding crc_bytes
  receive-payload_bytes small =
      let m = measured ss a (length xs) in
      ap (λ ys. receive (stuff ys) m) (sym (append_assoc xs (lo ∷ []) (hi ∷ [])))
      ∙ receive_payload (xs ++ lo ∷ []) hi m refl (omega arith)
          (omega (arith, length-append xs (lo ∷ []))) (omega arith)
      ∙ ap (λ ys. end_of_packet (deliver m ys)) (append_assoc xs (lo ∷ []) (hi ∷ []))

  -- From any receiver that is not in the middle of a stuffed pair, a frame for this address whose
  -- data is at most 250 bytes and not 127 bytes long, and whose address byte is no start byte,
  -- sets the flag of a new response, is followed by an idle receiver, and leaves exactly the
  -- unstuffed packet at the start of the buffer.
  pub receive-wire_frame :
      IsOpen ss
      → a ≢ ssp_stx
      → bit_and a ssp_stx ≡ ss.ssp_address
      → length xs ≤ 250
      → length xs ≢ 127
      → (receive (wire_frame a xs) ss ≡ ok (received ss a xs))
        × (slice (received ss a xs).rx_data 0 (length (raw_packet a xs)) ≡ raw_packet a xs)
  receive-wire_frame is ne us small ne' = (
    ap (λ ys. receive ys ss) (unstuffed_header ne ne')
        ∙ receive-append (ssp_stx ∷ a ∷ length xs ∷ []) (stuff (xs ++ crc_bytes sum_of_frame)) ss
        ∙ ap (λ r. r >>= receive (stuff (xs ++ crc_bytes sum_of_frame)))
            (receive_header ss is a ne (length xs) ne' small)
        ∙ receive-payload_bytes small
        ∙ ap end_of_packet delivered
        ∙ end_of_packet-accepts us,
    slice-fill ss.rx_data 0 (raw_packet a xs),
  )
