-- ===== src/Download/Ram.antt =====
-- `_download_ram_file` of _eSSP/lib/SSPDownload.c: the program that the unit runs to store the rest.
use e_ssp.Base.{
  ℕ, zero, suc, ◌+◌, ◌*◌, ◌/◌, ◌%◌, ◌^◌, ◌==◌, ◌&&◌, not, if◌then◌else◌, true, false, List, [], ◌∷◌,
  u8, Run, ok, ◌>>=◌,
}
use e_ssp.Defs.{Command, ssp_response_ok}
use e_ssp.Helpers.{with_request}
use e_ssp.Download.File.{ItlFile, byte_at, bytes_at, be32_at}
use e_ssp.Download.Port.{Device, Done, read_single_byte_reply}

abbrev pub ssp_cmd_program : ℕ
ssp_cmd_program = 0x0B

abbrev pub ssp_program_ram : ℕ
ssp_program_ram = 0x03

abbrev pub ssp_response_header_failure : ℕ
ssp_response_header_failure = 0xF9

abbrev pub download_complete : ℕ
download_complete = 0x100000

abbrev pub data_transfer_fail : ℕ
data_transfer_fail = 0x100010

abbrev pub prog_command_fail : ℕ
prog_command_fail = 0x100011

abbrev pub header_fail : ℕ
header_fail = 0x100012

abbrev pub ram_dwnl_block_size : ℕ
ram_dwnl_block_size = 128

-- The return value, and the structure of the file as it is left.
pub record Outcome : Type 0 where
  pub code : ℕ
  pub itl : ItlFile

-- The rate for the transfer: fixed for two models, and read from the header for the others.
unfoldable pub transfer_baud : List ℕ → Run ℕ
transfer_baud file = do
  model ← byte_at file 5
  elim (not (model == 0x9) && not (model == 0xA)) as (λ b. Run ℕ) [
    | false ↦ ok 38400
    | true ↦ be32_at file 68 >>= λ baud. ok (if baud == 0 then 38400 else baud)
  ]

module _ {W : Type 0} (device : Device W) where
  -- The loop over the whole blocks; `n` are left, from block `i` on.
  unfoldable pub write_ram_blocks : ℕ → ℕ → List ℕ → W → Run W
  write_ram_blocks zero i file w = ok w
  write_ram_blocks (suc n) i file w = do
    block ← bytes_at file (128 + i * ram_dwnl_block_size) ram_dwnl_block_size
    write_ram_blocks n (i + 1) file (device.write_data block w)

  -- All the bytes of the program, the rest after the whole blocks.
  unfoldable pub write_ram : ItlFile → W → Run W
  write_ram itl w = do
    let blocks = itl.number_of_ram_bytes / ram_dwnl_block_size
    let rest = itl.number_of_ram_bytes % ram_dwnl_block_size
    w ← write_ram_blocks blocks 0 itl.f_data w
    elim (rest == 0) as (λ b. Run W) [
      | true ↦ ok w
      | false ↦ bytes_at itl.f_data (128 + blocks * ram_dwnl_block_size) rest >>= λ block.
          ok (device.write_data block w)
    ]

  -- The checksum of the program comes back as one byte.
  unfoldable pub check_ram : ItlFile → W → Run (Done W Outcome)
  check_ram itl w = do
    r ← read_single_byte_reply device 500 w
    sum ← byte_at itl.f_data 0x10
    ok (record {
      result = record {
        code = if sum == u8 r.result then download_complete else data_transfer_fail;
        itl = itl;
      };
      world = r.world;
    })

  unfoldable pub transfer_ram : ItlFile → W → Run (Done W Outcome)
  transfer_ram itl w = do
    baud ← transfer_baud itl.f_data
    let set = record itl { baud = baud }
    w ← write_ram set (device.set_baud baud w)
    check_ram set w

  -- The header goes out as the data of a packet.
  unfoldable pub send_header : ItlFile → Command → W → Run (Done W Outcome)
  send_header itl ssp_c w = do
    header ← bytes_at itl.f_data 0 128
    s ← device.send (with_request (record ssp_c { encryption_status = false }) header) w
    let status = s.cmd.response_data 0
    elim (status == ssp_response_ok) as (λ b. Run (Done W Outcome)) [
      | true ↦ transfer_ram itl s.world
      | false ↦ ok (record {
        result = record {
          code = if status == ssp_response_header_failure then header_fail else data_transfer_fail;
          itl = itl;
        };
        world = s.world;
      })
    ]

  unfoldable pub download_ram_file : ItlFile → Command → W → Run (Done W Outcome)
  download_ram_file itl ssp_c w = do
    s ← device.send (with_request ssp_c (ssp_cmd_program ∷ ssp_program_ram ∷ [])) w
    let r = s.cmd.response_data
    elim (s.success && r 0 == ssp_response_ok) as (λ b. Run (Done W Outcome)) [
      | true ↦ send_header (record itl { dwnl_block_size = r 1 + r 2 * 2 ^ 8 }) s.cmd s.world
      | false ↦
          ok (record { result = record { code = prog_command_fail; itl = itl }; world = s.world })
    ]
