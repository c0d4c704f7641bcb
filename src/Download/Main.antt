-- ===== src/Download/Main.antt =====
-- `_download_main_file` of _eSSP/lib/SSPDownload.c: the blocks of the firmware itself.
use e_ssp.Base.{
  ℕ, zero, suc, ◌+◌, ◌-◌, ◌*◌, bit_xor, Bool, true, false, List, [], ◌∷◌, Run, ok, ◌>>=◌,
}
use e_ssp.Download.File.{ItlFile, bytes_at}
use e_ssp.Download.Port.{Device, Done, send_download_command}
use e_ssp.Download.Ram.{download_complete, data_transfer_fail}

abbrev pub ram_ok_ack : ℕ
ram_ok_ack = 0x32

-- `chk`, from the bytes of the block in order.
unfoldable pub block_checksum : ℕ → List ℕ → ℕ
block_checksum chk [] = chk
block_checksum chk (b ∷ bs) = block_checksum (bit_xor chk b) bs

-- The return value, and the last block that was confirmed.
pub record Stored : Type 0 where
  pub code : ℕ
  pub download_block : ℕ

module _ {W : Type 0} (device : Device W) where
  -- A block goes out, then its checksum, which must come back.
  unfoldable pub send_block : ItlFile → ℕ → W → Run (Done W Bool)
  send_block itl cur_block w = do
    let block_offset = 128 + (cur_block - 1) * itl.dwnl_block_size + itl.number_of_ram_bytes
    block ← bytes_at itl.f_data block_offset itl.dwnl_block_size
    let chk = block_checksum 0 block
    send_download_command device (chk ∷ []) chk (device.write_data block w)

  -- The loop from block `cur_block` on, with `n` blocks left.
  unfoldable pub send_blocks : ℕ → ItlFile → ℕ → ℕ → W → Run (Done W Stored)
  send_blocks zero itl cur_block reached w =
      ok (record {
        result = record { code = download_complete; download_block = reached };
        world = w;
      })
  send_blocks (suc n) itl cur_block reached w = do
    s ← send_block itl cur_block w
    elim (s.result) as (λ b. Run (Done W Stored)) [
      | true ↦ send_blocks n itl (cur_block + 1) cur_block s.world
      | false ↦ ok (record {
        result = record { code = data_transfer_fail; download_block = reached };
        world = s.world;
      })
    ]

  -- A command to the program in the unit, which acknowledges it.
  unfoldable pub acknowledged : List ℕ → W → (W → Run (Done W Stored)) → Run (Done W Stored)
  acknowledged bytes w next = do
    s ← send_download_command device bytes ram_ok_ack w
    elim (s.result) as (λ b. Run (Done W Stored)) [
      | true ↦ next s.world
      | false ↦ ok (record {
        result = record { code = data_transfer_fail; download_block = 0 };
        world = s.world;
      })
    ]

  -- The port is opened again by its name. The handle that this returns is not looked at: the rate
  -- is set, and the transfer goes on, with the handle that was closed.
  unfoldable pub download_main_file : ItlFile → W → Run (Done W Stored)
  download_main_file itl w = do
    start ← bytes_at itl.f_data 6 1
    let reopened = (device.open_port (device.close_port w)).world
    acknowledged start (device.set_baud itl.baud reopened) λ w.
        bytes_at itl.f_data 0 128 >>= λ header.
        acknowledged header w (send_blocks itl.number_of_blocks itl 1 0)
