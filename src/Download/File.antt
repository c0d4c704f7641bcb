-- ===== src/Download/File.antt =====
-- The firmware file that is downloaded: ITL_FILE_DOWNLOAD of _eSSP/lib/ITLSSPProc.h, and what
-- _eSSP/lib/SSPDownload.c reads from the header of the file.
use e_ssp.Base.{
  ℕ, ◌+◌, ◌*◌, ◌/◌, ◌%◌, ◌^◌, ◌==◌, leb, ltb, if◌then◌else◌, Bool, true, false, List, length, take,
  drop, item, Run, ok, require, ◌>>=◌, ◌>>◌,
}
use e_ssp.Defs.{FullKey}

-- `ITL_FILE_DOWNLOAD` without the names of the port.
pub record ItlFile : Type 0 where
  pub number_of_blocks : ℕ
  pub number_of_ram_bytes : ℕ
  pub f_data : List ℕ
  pub dwnl_block_size : ℕ
  pub ssp_address : ℕ
  pub encryption_status : Bool
  pub key : FullKey
  pub baud : ℕ

-- `fData[i]`, and `n` bytes from `&fData[i]` on.
abbrev pub byte_at : List ℕ → ℕ → Run ℕ
byte_at file i = do require (ltb i (length file)); ok (item file i)

abbrev pub bytes_at : List ℕ → ℕ → ℕ → Run (List ℕ)
bytes_at file i n = do require (leb (i + n) (length file)); ok (take n (drop i file))

-- Four bytes from index `i` on, the highest first.
unfoldable pub be32_at : List ℕ → ℕ → Run ℕ
be32_at file i = do
  a ← byte_at file i
  b ← byte_at file (i + 1)
  c ← byte_at file (i + 2)
  d ← byte_at file (i + 3)
  ok (a * 2 ^ 24 + b * 2 ^ 16 + c * 2 ^ 8 + d)

-- The letters ITL; a letter that differs ends the test.
unfoldable pub is_itl : List ℕ → Run Bool
is_itl file = do
  i ← byte_at file 0
  elim (i == 73) as (λ b. Run Bool) [
    | false ↦ ok false
    | true ↦ byte_at file 1 >>= λ t. elim (t == 84) as (λ b. Run Bool) [
      | false ↦ ok false
      | true ↦ byte_at file 2 >>= λ l. ok (l == 76)
    ]
  ]

unfoldable pub block_count : ℕ → ℕ → ℕ
block_count bytes size = if bytes % size == 0 then bytes / size else bytes / size + 1

-- The number of blocks, by the header.
unfoldable pub header_blocks : List ℕ → Run ℕ
header_blocks file = do
  num_cur_bytes ← be32_at file 17
  high ← byte_at file 0x3e
  low ← byte_at file 0x3f
  let d_block_size = 256 * high + low
  ok (block_count num_cur_bytes (if d_block_size == 0 then 4096 else d_block_size))
