-- ===== src/Download.antt =====
-- The download of firmware, _eSSP/lib/SSPDownload.c: the checks before it, and the thread.
pub mod File
pub mod Port
pub mod Ram
pub mod Main
pub mod Checks
pub mod Launch
pub mod Threads
pub mod Transcript
pub mod Loader
pub mod Loaded
use e_ssp.Base.{
  ℕ, ◌+◌, ◌*◌, ◌^◌, ◌==◌, ◌&&◌, ltb, u32, if◌then◌else◌, Bool, true, false, List, [], ◌∷◌, Option,
  none, some, Run, ok, ◌>>=◌,
}
use e_ssp.Defs.{Command, FullKey, ssp_cmd_sync, ssp_response_ok}
use e_ssp.Helpers.{with_request}
use e_ssp.Download.File.{ItlFile, is_itl, header_blocks, be32_at}
use e_ssp.Download.Port.{Device, Done}
use e_ssp.Download.Ram.{Outcome, download_complete, download_ram_file}
use e_ssp.Download.Main.{Stored, download_main_file}

abbrev pub open_file_error : ℕ
open_file_error = 0x100001

abbrev pub not_itl_file : ℕ
not_itl_file = 0x100003

abbrev pub port_open_fail : ℕ
port_open_fail = 0x100004

abbrev pub sync_connection_fail : ℕ
sync_connection_fail = 0x100005

-- The globals `download_in_progress` and `download_block`.
pub record Progress : Type 0 where
  pub download_in_progress : Bool
  pub download_block : ℕ

-- The return value, the structure that the thread is started with, if it is, and the globals.
pub record Launched : Type 0 where
  pub code : ℕ
  pub thread : Option ItlFile
  pub progress : Progress

-- What the structures hold before they are set: the memory from `malloc`, and the stack.
pub record Fresh : Type 0 where
  pub itl : ItlFile
  pub ssp_c : Command

-- The settings that both functions make before they send.
abbrev pub download_command : ℕ → Command → Command
download_command ssp_address c = record c {
  timeout = 1000;
  retry_level = 2;
  ssp_address = ssp_address;
}

module _ {W : Type 0} (device : Device W) where
  abbrev pub refused : ℕ → Progress → W → Run (Done W Launched)
  refused code progress w =
      ok (record { result = record { code = code; thread = none; progress = progress }; world = w })

  abbrev pub started : ItlFile → Progress → W → Run (Done W Launched)
  started itl progress w = ok (record {
    result = record { code = u32 itl.number_of_blocks; thread = some itl; progress = progress };
    world = w;
  })

  -- A negotiation for the download, when a fixed key is given.
  unfoldable pub negotiate_download : ItlFile → ℕ → Progress → W → Run (Done W Launched)
  negotiate_download itl key progress w = elim (ltb 0 key) as (λ b. Run (Done W Launched)) [
    | false ↦ started itl progress w
    | true ↦ device.negotiate itl.ssp_address itl.key w >>= λ n.
        elim (n.success) as (λ b. Run (Done W Launched)) [
          | false ↦ refused sync_connection_fail progress (device.close_port n.world)
          | true ↦
              started
                (record itl { encryption_status = true; key = record (n.key) { fixed_key = key } })
                progress n.world
        ]
  ]

  -- The port is opened and the unit must answer a synchronisation.
  unfoldable pub check_target : Fresh → ItlFile → ℕ → Progress → W → Run (Done W Launched)
  check_target fresh itl key progress w =
      let o = device.open_port w in
      elim (o.success) as (λ b. Run (Done W Launched)) [
        | false ↦ refused port_open_fail progress o.world
        | true ↦ do
          s ←
              device.send
                (with_request
                  (record (download_command itl.ssp_address fresh.ssp_c) {
                    encryption_status = false;
                  })
                  (ssp_cmd_sync ∷ []))
                o.world
          elim (s.success && s.cmd.response_data 0 == ssp_response_ok)
              as (λ b. Run (Done W Launched)) [
                | false ↦ refused sync_connection_fail progress (device.close_port s.world)
                | true ↦ negotiate_download itl key progress s.world
              ]
      ]

  unfoldable pub download_data_to_target :
      Fresh → List ℕ → ℕ → ℕ → Progress → W → Run (Done W Launched)
  download_data_to_target fresh file ssp_address key progress w =
      elim (progress.download_in_progress) as (λ b. Run (Done W Launched)) [
        | true ↦ refused port_open_fail progress w
        | false ↦ do
          let reset = record progress { download_block = 0 }
          itl ← is_itl file
          elim itl as (λ b. Run (Done W Launched)) [
            | false ↦ refused not_itl_file reset w
            | true ↦ do
              blocks ← header_blocks file
              check_target fresh
                  (record (fresh.itl) {
                    f_data = file;
                    number_of_blocks = blocks;
                    ssp_address = ssp_address;
                  })
                  key reset w
          ]
      ]

  -- The file by the file system, or nothing if it cannot be opened.
  unfoldable pub download_file_to_target :
      Fresh → Option (List ℕ) → ℕ → ℕ → Progress → W → Run (Done W Launched)
  download_file_to_target fresh none ssp_address key progress w = refused open_file_error progress w
  download_file_to_target fresh (some file) ssp_address key progress w =
      download_data_to_target fresh file ssp_address key progress w

  -- The thread. While it runs `download_block` is the block of `Stored`; at the end it is the
  -- return value.
  unfoldable pub download_itl_target : Command → ItlFile → W → Run (Done W Progress)
  download_itl_target ssp_c itl w = do
    let plain = record (download_command itl.ssp_address ssp_c) { encryption_status = false }
    let c =
        if itl.encryption_status
        then record plain { encryption_status = true; key = itl.key }
        else plain
    ram_bytes ← be32_at itl.f_data 7
    r ← download_ram_file device (record itl { number_of_ram_bytes = ram_bytes }) c w
    m ← elim (r.result.code == download_complete) as (λ b. Run (Done W ℕ)) [
      | false ↦ ok (record { result = r.result.code; world = r.world })
      | true ↦ download_main_file device r.result.itl r.world >>= λ s.
          ok (record { result = s.result.code; world = s.world })
    ]
    ok (record {
      result = record { download_in_progress = false; download_block = m.result };
      world = device.close_port m.world;
    })

abbrev pub get_download_status : Progress → ℕ
get_download_status progress = progress.download_block
