-- ===== src/Packet/Frame.antt =====
-- The frame on the wire, as a function of the address byte and the data: what a compiled command
-- is, and what the receiver accepts.
use e_ssp.Base.{ℕ, ◌+◌, ◌*◌, ◌≤◌, List, [], ◌∷◌, ◌++◌, length, length-append, arith}
use e_ssp.Defs.{ssp_stx}
use e_ssp.Crc.{ssp_crc}
use e_ssp.Crypt.{crc_bytes}
use e_ssp.Packet.{stuff, frame_body}

-- A packet: start byte, address byte, data length, data, checksum of all but the start byte.
unfoldable pub raw_packet : ℕ → List ℕ → List ℕ
raw_packet a xs = ssp_stx ∷ frame_body a xs ++ crc_bytes (ssp_crc (frame_body a xs))

-- The packet with every start byte after the first one doubled.
unfoldable pub wire_frame : ℕ → List ℕ → List ℕ
wire_frame a xs = ssp_stx ∷ stuff (frame_body a xs ++ crc_bytes (ssp_crc (frame_body a xs)))

length-stuff : (xs : List ℕ) → length (stuff xs) ≤ 2 * length xs
unfolding stuff
length-stuff [] = omega arith
length-stuff (x ∷ xs) = ground (arith, length-stuff xs)

-- Stuffing at most doubles what stands behind the start byte.
pub length-wire_frame : (a : ℕ) (xs : List ℕ) → length (wire_frame a xs) ≤ 2 * length xs + 9
unfolding wire_frame frame_body crc_bytes
length-wire_frame a xs =
    let crc = crc_bytes (ssp_crc (frame_body a xs)) in
    omega (arith, length-stuff (frame_body a xs ++ crc), length-append xs crc)
