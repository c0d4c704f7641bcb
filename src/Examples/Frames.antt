-- ===== src/Examples/Frames.antt =====
-- Frames of Packet, at concrete bytes.
use e_ssp.Base.{
  List, ◌++◌, ℕ, zero, suc, ◌≤◌, ◌∷◌, [], length, All, replicate, slice, take, fill, true, false,
  ok, fault, inl, ◌≡◌, ◌≢◌, refl, arith,
}
use e_ssp.Defs.{Packet, ssp_stx}
use e_ssp.Packet.{Compiled, receive, compile_ssp_command, ssp_data_in, stuff, frame_body}
use e_ssp.Packet.Frame.{raw_packet, wire_frame}
use e_ssp.Packet.Receive.{IsOpen}
use e_ssp.Packet.RoundTrip.{received, receive-wire_frame}
use e_ssp.Packet.Compile.{payload, address_byte, synced, compiled, compile_ssp_command-wire_frame}
use e_ssp.Packet.Exchange.{IsSeq, receive-compile_ssp_command}
use e_ssp.Packet.Safety.{IsSafe, Ends, ssp_data_in-IsSafe, receive-overrun, receive-length_127}
use e_ssp.Crc.{ssp_crc, cal_crc_loop_ccitt_a, crc_byte, crc_bits, crc_bit}
use e_ssp.Crypt.{crc_bytes}
use e_ssp.Crc.Laws.{ssp_crc_single_error}
use e_ssp.Examples.{adding, dice, idle, payout_command, globals}

pub idle-IsOpen : IsOpen idle
idle-IsOpen = record {
  plain = refl;
  inside = omega arith;
  header = omega arith;
  fits = omega arith;
}

-- The frame of the request fits the buffer.
frame_fits :
    length (
      wire_frame
        (address_byte payout_command (synced payout_command globals))
        (payload payout_command))
    ≡ 14
unfolding wire_frame frame_body stuff ssp_crc cal_crc_loop_ccitt_a crc_byte crc_bits crc_bit
    crc_bytes synced fill
frame_fits = refl

pub fits :
    length (
      wire_frame
        (address_byte payout_command (synced payout_command globals))
        (payload payout_command))
    ≤ 255
fits = omega (arith, frame_fits)

abbrev seq : ℕ
seq = (synced payout_command globals).ssp_seq 0

seq-IsSeq : IsSeq seq
unfolding synced fill
seq-IsSeq = inl refl

receive-compile_ssp_command_example :
    (c : Compiled) × (compile_ssp_command adding dice payout_command idle globals ≡ ok c)
    × (t : Packet) × (receive (slice c.packet.tx_data 0 c.packet.tx_buffer_length) idle ≡ ok t)
    × (t.new_response ≡ true)
    × (slice t.rx_data 3 9 ≡ payload payout_command)
receive-compile_ssp_command_example =
    receive-compile_ssp_command adding dice payout_command idle idle globals refl (omega arith)
      seq-IsSeq (omega arith) (omega arith) fits idle-IsOpen refl

payout_compiled :
    (compile_ssp_command adding dice payout_command idle globals
      ≡ ok (compiled adding dice payout_command idle globals))
    × (slice
          (compiled adding dice payout_command idle globals).packet.tx_data
          0
          (compiled adding dice payout_command idle globals).packet.tx_buffer_length
        ≡ wire_frame
            (address_byte payout_command (synced payout_command globals))
            (payload payout_command))
    × IsOpen (compiled adding dice payout_command idle globals).packet
payout_compiled =
    compile_ssp_command-wire_frame adding dice payout_command idle globals refl (omega arith)
      (omega arith) fits

-- Two start bytes among the data.
two_start_bytes :
    (receive (wire_frame 128 (0xF0 ∷ 0x7F ∷ 0x7F ∷ [])) idle
      ≡ ok (received idle 128 (0xF0 ∷ 0x7F ∷ 0x7F ∷ [])))
    × (slice
          (received idle 128 (0xF0 ∷ 0x7F ∷ 0x7F ∷ [])).rx_data
          0
          (length (raw_packet 128 (0xF0 ∷ 0x7F ∷ 0x7F ∷ [])))
        ≡ raw_packet 128 (0xF0 ∷ 0x7F ∷ 0x7F ∷ []))
two_start_bytes =
    receive-wire_frame idle 128 (0xF0 ∷ 0x7F ∷ 0x7F ∷ []) idle-IsOpen
      (λ e. absurd (omega (arith, e))) refl (omega arith) (λ e. absurd (omega (arith, e)))

ssp_data_in-IsSafe_example : Ends IsSafe (ssp_data_in 0x7F idle)
ssp_data_in-IsSafe_example =
    ssp_data_in-IsSafe 0x7F idle
      (record { inside = omega arith; header = omega arith; fits = omega arith }) (λ e. omega arith)

clean : (n : ℕ) → All (λ b. b ≢ ssp_stx) (replicate n 7)
clean zero = tt
clean (suc n) = ((λ e. absurd (omega (arith, e))), clean n)

receive-overrun_example :
    (t : Packet) × (receive (0x7F ∷ 0 ∷ 251 ∷ replicate 252 7) idle ≡ ok t)
    × (t.rx_buffer_length ≡ 0)
    × (t.rx_ptr ≡ 255)
    × (t.new_response ≡ false)
    × (slice t.rx_data 3 252 ≡ replicate 252 7)
    × ((b : ℕ) (rest : List ℕ)
        → b ≢ ssp_stx
        → receive ((0x7F ∷ 0 ∷ 251 ∷ replicate 252 7) ++ b ∷ rest) idle ≡ fault)
receive-overrun_example =
    receive-overrun idle 0 251 (replicate 252 7) idle-IsOpen (λ e. absurd (omega (arith, e)))
      (omega arith) (omega arith) (clean 252) refl

receive-length_127_example :
    (t : Packet) × (receive (take 4 (wire_frame 0 (replicate 127 1))) idle ≡ ok t)
    × (t.new_response ≡ false)
    × (t.rx_ptr ≡ 0)
    × (t.rx_buffer_length ≡ 3)
receive-length_127_example =
    receive-length_127 idle 0 idle-IsOpen refl (λ e. absurd (omega (arith, e))) (replicate 127 1)
      refl

ssp_crc_single_error_example : ssp_crc (0 ∷ 1 ∷ 0xF0 ∷ []) ≢ ssp_crc (0 ∷ 1 ∷ 0xF2 ∷ [])
ssp_crc_single_error_example =
    ssp_crc_single_error (0 ∷ 1 ∷ []) [] 0xF0 0xF2 (omega arith, (omega arith, tt)) tt (omega arith)
      (omega arith) (λ e. absurd (omega (arith, e)))
