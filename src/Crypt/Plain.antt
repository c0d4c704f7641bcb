-- ===== src/Crypt/Plain.antt =====
-- The plain packet of `EncryptSSPPacket`: its length, and that it is made of bytes.
use e_ssp.Base.{
  ℕ, zero, suc, ◌+◌, ◌*◌, ◌/◌, ◌≤◌, ◌<◌, leb, true, false, List, ◌++◌, length, length-append, All,
  All-append, IsByte, ◌≡◌, refl, ap, ◌∙◌, arith,
}
use e_ssp.Cipher.{le_bytes}
use e_ssp.Cipher.Laws.{length-le_bytes, le_bytes-IsByte}
use e_ssp.Crc.{ssp_crc}
use e_ssp.Crypt.{crc_bytes, packing, pack_length, packed_length, plain_body}

-- The packed length is a positive multiple of 16 that fits the buffers.
pub record Fits (n : ℕ) : Type 0 where
  pub size : packed_length n ≡ n + 7 + pack_length n
  pub blocks : packed_length n / 16 * 16 ≡ packed_length n
  pub room : packed_length n ≤ 240

pub packed_length-Fits : (n : ℕ) → n ≤ 233 → Fits n
unfolding packed_length pack_length
packed_length-Fits n h = record { size = ground arith; blocks = ground arith; room = ground arith }

length-packing : (rand : ℕ → ℕ) (calls n : ℕ) → length (packing rand calls n) ≡ n
unfolding packing
length-packing rand calls zero = refl
length-packing rand calls (suc n) = ap suc (length-packing rand (suc calls) n)

packing-IsByte : (rand : ℕ → ℕ) (calls n : ℕ) → All IsByte (packing rand calls n)
unfolding packing
packing-IsByte rand calls zero = tt
packing-IsByte rand calls (suc n) = (omega arith, packing-IsByte rand (suc calls) n)

-- The plain packet: the body and its checksum.
unfoldable pub plain_packet : (ℕ → ℕ) → ℕ → ℕ → List ℕ → List ℕ
plain_packet rand calls count xs =
    let body = plain_body rand calls count xs in body ++ crc_bytes (ssp_crc body)

pub plain_body_size :
    (rand : ℕ → ℕ) (calls count : ℕ) (xs : List ℕ)
    → length (plain_body rand calls count xs) ≡ 5 + length xs + pack_length (length xs)
unfolding plain_body
plain_body_size rand calls count xs = omega (
  arith,
  length-append (le_bytes 4 count ++ xs) (packing rand calls (pack_length (length xs))),
  length-append (le_bytes 4 count) xs,
  length-le_bytes 4 count,
  length-packing rand calls (pack_length (length xs)),
)

-- From 234 bytes on, a body that fits the buffer has a packed length of 0.
pub wraps :
    (n size : ℕ)
    → 234 ≤ n
    → n < 256
    → size ≡ 5 + n + pack_length n
    → leb (0 + size) 255 ≡ true
    → leb 2 (packed_length n) ≡ false
unfolding packed_length pack_length
wraps n size long byte e room = ground arith

plain_body-IsByte :
    (rand : ℕ → ℕ) (calls count : ℕ) (xs : List ℕ)
    → IsByte (length xs)
    → All IsByte xs
    → All IsByte (plain_body rand calls count xs)
unfolding plain_body
plain_body-IsByte rand calls count xs size bytes = (
  size,
  All-append IsByte (le_bytes 4 count ++ xs) (packing rand calls (pack_length (length xs)))
      (All-append IsByte (le_bytes 4 count) xs (le_bytes-IsByte 4 count) bytes)
      (packing-IsByte rand calls (pack_length (length xs))),
)

module _ (rand : ℕ → ℕ) (calls count : ℕ) (xs : List ℕ) (short : length xs ≤ 233) where
  pub length-plain_body : length (plain_body rand calls count xs) + 2 ≡ packed_length (length xs)
  length-plain_body =
      omega
        (arith, plain_body_size rand calls count xs, (packed_length-Fits (length xs) short).size)

  pub length-plain_packet : length (plain_packet rand calls count xs) ≡ packed_length (length xs)
  unfolding plain_packet crc_bytes
  length-plain_packet = length-append (plain_body rand calls count xs) _ ∙ length-plain_body

  pub plain_packet-IsByte : All IsByte xs → All IsByte (plain_packet rand calls count xs)
  unfolding plain_packet crc_bytes
  plain_packet-IsByte bytes =
      All-append IsByte (plain_body rand calls count xs) (crc_bytes _)
        (plain_body-IsByte rand calls count xs (omega arith) bytes) (omega arith, (omega arith, tt))
