-- ===== src/Crypt.antt =====
-- `EncryptSSPPacket` and `DecryptSSPPacket` of _eSSP/lib/ITLSSPProc.c.
pub mod Plain
pub mod Laws
use e_ssp.Base.{
  ℕ, zero, suc, ◌+◌, ◌-◌, ◌/◌, ◌%◌, ◌^◌, leb, ◌==◌, if◌then◌else◌, u8, u32, bit_and, List, [], ◌∷◌,
  ◌++◌, length, Array, slice, update, write_all, read, Run, ok, require, ◌>>=◌, ◌>>◌,
}
use e_ssp.Defs.{FullKey, ssp_stex, max_ssp_port}
use e_ssp.Cipher.{BlockCipher, aes_encrypt, aes_decrypt, le_bytes}
use e_ssp.Crc.{ssp_crc}
use e_ssp.Host.{Globals}

-- The two bytes of a checksum, as they are sent.
unfoldable pub crc_bytes : ℕ → List ℕ
crc_bytes crc = u8 (bit_and crc 0xFF) ∷ u8 (bit_and (crc / 2 ^ 8) 0xFF) ∷ []

-- `packLength` results of `rand() % 255`.
unfoldable pub packing : (ℕ → ℕ) → ℕ → ℕ → List ℕ
packing rand calls zero = []
packing rand calls (suc n) = rand calls % 255 ∷ packing rand (suc calls) n

abbrev pub fixed_packet_length : ℕ
fixed_packet_length = 7

unfoldable pub pack_length : ℕ → ℕ
pack_length length_in =
    let pk_length = u8 (length_in + fixed_packet_length) in
    if pk_length % 16 == 0 then 0 else 16 - pk_length % 16

-- The bytes of the plain packet before its checksum.
unfoldable pub plain_body : (ℕ → ℕ) → ℕ → ℕ → List ℕ → List ℕ
plain_body rand calls count xs =
    length xs ∷ le_bytes 4 count ++ xs ++ packing rand calls (pack_length (length xs))

-- `pkLength` once the packing is added.
unfoldable pub packed_length : ℕ → ℕ
packed_length length_in = u8 (u8 (length_in + fixed_packet_length) + pack_length length_in)

pub record Encrypted : Type 0 where
  pub data_out : Array
  pub length_out : ℕ
  pub globals : Globals

module _ (cipher : BlockCipher) (rand : ℕ → ℕ) where
  -- `dataOut` is `dataIn`, and `lengthOut` is `lengthIn`, as the one caller passes them.
  -- `aes_encrypt` in ECB mode always succeeds, so the early return of 0 is never taken.
  unfoldable pub encrypt_ssp_packet : ℕ → Array → ℕ → FullKey → Globals → Run Encrypted
  encrypt_ssp_packet pt_num data_in length_in key g = do
    count ← read max_ssp_port g.enc_pkt_count pt_num
    let body = plain_body rand g.rand_calls count (slice data_in 0 length_in)
    let pk_length = packed_length length_in
    tmp ← write_all 255 (λ _. 0) 0 body
    require (leb 2 pk_length)
    let crc = ssp_crc (slice tmp 0 (pk_length - 2))
    tmp ← write_all 255 tmp (pk_length - 2) (crc_bytes crc)
    out ← write_all 255 data_in 1 (aes_encrypt cipher key (slice tmp 0 pk_length))
    ok (record {
      data_out = update out 0 ssp_stex;
      length_out = u8 (pk_length + 1);
      globals = record g {
        enc_pkt_count = update g.enc_pkt_count pt_num (u32 (count + 1));
        rand_calls = g.rand_calls + pack_length length_in;
        seed_calls = g.seed_calls;
      };
    })

module _ (cipher : BlockCipher) where
  -- Decrypts in place the `length_in` bytes of an array of 255 from index `i` on. `aes_decrypt`
  -- works on whole blocks, and leaves the bytes after the last whole block as they are.
  unfoldable pub decrypt_ssp_packet : Array → ℕ → ℕ → FullKey → Run Array
  decrypt_ssp_packet buf i length_in key =
      write_all 255 buf i (aes_decrypt cipher key (slice buf i length_in))
