-- ===== src/Packet/Safety.antt =====
-- Which received bytes keep `SSPDataIn` inside its buffer, and which do not.
use e_ssp.Base.{
  fill, slice, slice-fill, sym, ◌-◌, ℕ, ◌+◌, ◌≤◌, ◌<◌, ◌==◌, if◌then◌else◌, Bool-cases, take, ◌&&◌,
  true, false, List, [], ◌∷◌, ◌++◌, length, All, Run, ok, fault, waiting, ◌>>=◌, ◌⊎◌, ◌≡◌, ◌≢◌, inl,
  inr, refl, ap, ◌∙◌, arith,
}
use e_ssp.Defs.{Packet, ssp_stx}
use e_ssp.Packet.{
  stuff, frame_body, store_byte, after_start, plain_byte, check_packet, end_of_packet, ssp_data_in,
  receive,
}
use e_ssp.Crc.{ssp_crc}
use e_ssp.Packet.Frame.{wire_frame}
use e_ssp.Packet.Receive.{
  IsOpen, started, advance, deliver, deliver_lem, receive_one, receive_first, receive_pair,
  receive-append,
}

-- The buffer holds the packet that is being received.
pub record IsSafe (ss : Packet) : Type 0 where
  pub inside : ss.rx_ptr < ss.rx_buffer_length
  pub header : 3 ≤ ss.rx_buffer_length
  pub fits : ss.rx_buffer_length ≤ 255

-- A run that ends, in a state with the property.
abbrev pub Ends : (Packet → Type 0) → Run Packet → Type 0
Ends P (ok t) = P t
Ends P fault = ⊥
Ends P waiting = ⊥

-- A byte of the packet was stored: it may be the last one.
record IsStored (ss : Packet) : Type 0 where
  upto : ss.rx_ptr ≤ ss.rx_buffer_length
  header : 3 ≤ ss.rx_buffer_length
  fits : ss.rx_buffer_length ≤ 255

check_packet-ok :
    (ss : Packet) → IsStored ss → (check_packet ss ≡ ok true) ⊎ (check_packet ss ≡ ok false)
unfolding check_packet
check_packet-ok ss is = ground arith

end_of_packet-IsSafe : (ss : Packet) → IsStored ss → Ends IsSafe (end_of_packet ss)
unfolding end_of_packet
end_of_packet-IsSafe ss is = elim (Bool-cases (ss.rx_ptr == ss.rx_buffer_length)) [
  | inl last ↦ elim (check_packet-ok ss is) [
    | inl e ↦ rw (last, e) (omega arith)
    | inr e ↦ rw (last, e) (omega arith)
  ]
  | inr more ↦ rw more (ground arith)
]

after_start-IsStored : (b : ℕ) (ss : Packet) → IsSafe ss → Ends IsStored (after_start b ss)
unfolding after_start store_byte
after_start-IsStored b ss is = ground arith

plain_byte-IsStored :
    (b : ℕ) (ss : Packet) → IsSafe ss → (ss.rx_ptr ≡ 2 → b ≤ 250) → Ends IsStored (plain_byte b ss)
unfolding plain_byte store_byte
plain_byte-IsStored b ss is small = ground arith

bind-Ends :
    (P Q : Packet → Type 0) (r : Run Packet) (f : Packet → Run Packet)
    → Ends P r
    → ((t : Packet) → P t → Ends Q (f t))
    → Ends Q (r >>= f)
bind-Ends P Q (ok t) f h next = next t h
bind-Ends P Q fault f h next = h
bind-Ends P Q waiting f h next = h

module _ (b : ℕ) (ss : Packet) (is : IsSafe ss) (small : ss.rx_ptr ≡ 2 → b ≤ 250) where
  first_byte-IsSafe : (b == ssp_stx && ss.rx_ptr == 0) ≡ true → Ends IsSafe (store_byte b ss)
  unfolding store_byte
  first_byte-IsSafe h = ground arith

  later_byte-IsStored : Ends IsStored (if ss.check_stuff then after_start b ss else plain_byte b ss)
  later_byte-IsStored = elim (Bool-cases ss.check_stuff) [
    | inl e ↦ simp e (after_start-IsStored b ss is)
    | inr e ↦ simp e (plain_byte-IsStored b ss is small)
  ]

  -- In a receiver whose packet fits the buffer, `SSPDataIn` ends without an access outside the
  -- buffer, and the packet still fits, for every byte but a length byte above 250.
  pub ssp_data_in-IsSafe : Ends IsSafe (ssp_data_in b ss)
  unfolding ssp_data_in
  ssp_data_in-IsSafe = elim (Bool-cases (b == ssp_stx && ss.rx_ptr == 0)) [
    | inl first ↦ rw first (first_byte-IsSafe first)
    | inr other ↦
        rw other
          (bind-Ends IsStored IsSafe _ end_of_packet later_byte-IsStored end_of_packet-IsSafe)
  ]

-- A packet length below 3 is never met behind the header.
overrun_step :
    (b : ℕ) (ss : Packet)
    → ss.check_stuff ≡ false
    → ss.rx_buffer_length < 3
    → 3 ≤ ss.rx_ptr
    → ss.rx_ptr < 255
    → b ≢ ssp_stx
    → ssp_data_in b ss ≡ ok (advance ss b)
unfolding ssp_data_in plain_byte store_byte end_of_packet
overrun_step b ss plain low head fits ne = ground arith

overrun_last :
    (b : ℕ) (ss : Packet)
    → ss.check_stuff ≡ false
    → ss.rx_ptr ≡ 255
    → b ≢ ssp_stx
    → ssp_data_in b ss ≡ fault
unfolding ssp_data_in plain_byte store_byte
overrun_last b ss plain full ne = ground arith

overrun_deliver :
    (bs : List ℕ) (ss : Packet)
    → ss.check_stuff ≡ false
    → ss.rx_buffer_length < 3
    → 3 ≤ ss.rx_ptr
    → ss.rx_ptr + length bs ≤ 255
    → All (λ b. b ≢ ssp_stx) bs
    → receive bs ss ≡ ok (deliver ss bs)
unfolding receive
overrun_deliver [] ss plain low head fits clean = refl
overrun_deliver (b ∷ bs) ss plain low head fits clean =
    rw (overrun_step b ss plain low head (omega arith) clean.0)
      (overrun_deliver bs (advance ss b) refl low (omega arith) (omega arith) clean.1)

module _ (ss : Packet) (a n : ℕ) (bs : List ℕ) (is : IsOpen ss) (ne : a ≢ ssp_stx) (long : 251 ≤ n)
    (wrapping : n ≤ 253) (clean : All (λ b. b ≢ ssp_stx) bs) (full : length bs ≡ 252) where
  -- The receiver behind the header.
  abbrev headed : Packet
  headed = record (advance (started ss a) n) { rx_buffer_length = n - 251 }

  -- The receiver when its buffer is full.
  abbrev brimming : Packet
  brimming = record headed { rx_data = fill headed.rx_data 3 bs; rx_ptr = 3 + length bs }

  receive-brimming : receive ((ssp_stx ∷ a ∷ []) ++ n ∷ bs) ss ≡ ok brimming
  receive-brimming =
      receive-append (ssp_stx ∷ a ∷ []) (n ∷ bs) ss
      ∙ ap (λ r. r >>= receive (n ∷ bs)) (receive_first ss is a ne)
      ∙ receive-append (n ∷ []) bs (started ss a)
      ∙ ap (λ r. r >>= receive bs) (receive_one n (started ss a) ∙ third)
      ∙ overrun_deliver bs headed refl (omega arith) (omega arith) (omega arith) clean
      ∙ ap ok (deliver_lem bs headed refl)
    where
      third : ssp_data_in n (started ss a) ≡ ok headed
      third = unfold ssp_data_in plain_byte store_byte end_of_packet in ground arith

  receive_last : (b : ℕ) (rest : List ℕ) → b ≢ ssp_stx → receive (b ∷ rest) brimming ≡ fault
  unfolding receive
  receive_last b rest other = rw (overrun_last b brimming refl (omega arith) other) refl

  -- A length byte of 251 to 253 makes the packet length wrap to 0 to 2, which no index behind the
  -- header meets. From any receiver that is not in the middle of a stuffed pair, and whose packet
  -- is not complete and fits the buffer, 252 bytes after the header fill the buffer of 255 in order
  -- and no response is reported; the next byte is written past the end of the buffer, whatever
  -- follows it. None of these 253 bytes, nor the address byte, is a start byte.
  pub receive-overrun :
      (t : Packet) × (receive ((ssp_stx ∷ a ∷ []) ++ n ∷ bs) ss ≡ ok t)
      × (t.rx_buffer_length ≡ n - 251)
      × (t.rx_ptr ≡ 255)
      × (t.new_response ≡ ss.new_response)
      × (slice t.rx_data 3 252 ≡ bs)
      × ((b : ℕ) (rest : List ℕ)
          → b ≢ ssp_stx
          → receive (((ssp_stx ∷ a ∷ []) ++ n ∷ bs) ++ b ∷ rest) ss ≡ fault)
  receive-overrun = (
    brimming,
    receive-brimming,
    refl,
    omega arith,
    refl,
    ap (slice brimming.rx_data 3) (sym full) ∙ slice-fill headed.rx_data 3 bs,
    λ b rest other.
        receive-append ((ssp_stx ∷ a ∷ []) ++ n ∷ bs) (b ∷ rest) ss
        ∙ ap (λ r. r >>= receive (b ∷ rest)) receive-brimming
        ∙ receive_last b rest other,
  )

-- The receiver after the header of a frame whose data is 127 bytes long.
abbrev dropped : Packet → ℕ → Packet
dropped ss a = record (advance (started ss a) ssp_stx) { rx_ptr = 0; rx_buffer_length = 3 }

module _ (ss : Packet) (a : ℕ) (is : IsOpen ss) (three : ss.rx_buffer_length ≡ 3)
    (ne : a ≢ ssp_stx) where
  check_header : check_packet (advance (started ss a) ssp_stx) ≡ ok false
  unfolding check_packet ssp_crc
  check_header = ground (arith, three)

  end_of_header : end_of_packet (advance (started ss a) ssp_stx) ≡ ok (dropped ss a)
  unfolding end_of_packet
  end_of_header = rw check_header (ground arith)

  header_127 :
      (xs : List ℕ)
      → length xs ≡ 127
      → take 4 (wire_frame a xs) ≡ ssp_stx ∷ a ∷ ssp_stx ∷ ssp_stx ∷ []
  unfolding wire_frame frame_body stuff
  header_127 xs long = ground arith

  -- A frame whose data is 127 bytes long is dropped at its header: the stuffed length byte does
  -- not set the packet length, so a receiver that waits for its first packet (packet length 3)
  -- takes the header for a whole packet and refuses it.
  pub receive-length_127 :
      (xs : List ℕ)
      → length xs ≡ 127
      → (t : Packet) × (receive (take 4 (wire_frame a xs)) ss ≡ ok t)
        × (t.new_response ≡ ss.new_response)
        × (t.rx_ptr ≡ 0)
        × (t.rx_buffer_length ≡ 3)
  receive-length_127 xs long = (
    dropped ss a,
    ap (λ ys. receive ys ss) (header_127 xs long)
        ∙ receive-append (ssp_stx ∷ a ∷ []) (ssp_stx ∷ ssp_stx ∷ []) ss
        ∙ ap (λ r. r >>= receive (ssp_stx ∷ ssp_stx ∷ [])) (receive_first ss is a ne)
        ∙ receive_pair (started ss a) refl (omega arith) (omega arith) (omega arith)
        ∙ end_of_header,
    refl,
    refl,
    refl,
  )
