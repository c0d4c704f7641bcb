-- ===== src/Examples/Loader.antt =====
-- A whole download at the unit that takes it: a program of 20 bytes and three blocks of 10.
use e_ssp.Base.{
  ℕ, ◌+◌, ◌*◌, false, List, [], ◌∷◌, ◌++◌, take, drop, replicate, All, IsByte, ok, ◌≡◌, refl, arith,
}
use native.Mathlib.Decide.{dec_lt}
use e_ssp.Download.File.{ItlFile}
use e_ssp.Download.Ram.{download_complete}
use e_ssp.Download.Main.{block_checksum}
use e_ssp.Download.{download_itl_target}
use e_ssp.Download.Loader.{idle, Loader, loader}
use e_ssp.Download.Loaded.Program.{download_itl_target-stored}
use e_ssp.Examples.{payout_command, are_bytes, are_bytes-IsByte}

abbrev file : List ℕ
file =
    73 ∷ 84 ∷ 76 ∷ 0 ∷ 0 ∷ 0 ∷ 1 ∷ 0 ∷ 0 ∷ 0 ∷ 20 ∷ 0 ∷ 0 ∷ 0 ∷ 0 ∷ 0 ∷ 0 ∷ replicate 111 0
    ++ replicate 20 7
    ++ replicate 30 9

abbrev itl : ItlFile
itl = record {
  number_of_blocks = 3;
  number_of_ram_bytes = 0;
  f_data = file;
  dwnl_block_size = 0;
  ssp_address = 0;
  encryption_status = false;
  key = payout_command.key;
  baud = 0;
}

abbrev unit : Loader
unit = record { phase = idle; size = 10; sum = 0; ram = []; flash = []; replied = [] }

file-IsByte : All IsByte file
unfolding are_bytes dec_lt
file-IsByte = are_bytes-IsByte file refl

download_itl_target-stored_example :
    (v : Loader) × (download_itl_target loader payout_command itl unit
      ≡ ok (record {
        result = record { download_in_progress = false; download_block = download_complete };
        world = v;
      }))
    × (v.ram ≡ [] ++ take 20 (drop 128 file))
    × (v.flash ≡ [] ++ take (3 * 10) (drop (128 + 20) file))
unfolding block_checksum
download_itl_target-stored_example =
    download_itl_target-stored payout_command itl unit refl (omega arith) (omega arith)
      (omega arith) (omega arith) file-IsByte refl
