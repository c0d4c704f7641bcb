-- ===== src/Examples/Download.antt =====
-- The download at a device that records what is written and echoes the last byte.
use e_ssp.Base.{
  ℕ, zero, suc, ◌+◌, true, false, List, [], ◌∷◌, ◌++◌, take, drop, replicate, fill, All, IsByte, ok,
  ◌≡◌, refl, ap, arith, ◌==◌,
}
use e_ssp.Download.File.{ItlFile}
use e_ssp.Download.Port.{Device, send_download_command}
use e_ssp.Download.Ram.{write_ram, download_complete}
use e_ssp.Download.Main.{send_blocks}
use e_ssp.Download.{Fresh}
use e_ssp.Download.Checks.{silent, send_download_command-silent}
use e_ssp.Download.Transcript.{Echo, transcript, write_ram-bytes, send_blocks-transcript}
use e_ssp.Examples.{payout_command}

last_byte : List ℕ → List ℕ
last_byte [] = []
last_byte (x ∷ []) = x ∷ []
last_byte (x ∷ y ∷ ys) = last_byte (y ∷ ys)

unfoldable pub recorder : Device (List ℕ)
unfolding last_byte
recorder = record {
  send = λ c w. ok (record {
    success = true;
    cmd = record c { response_data = fill c.response_data 0 (0xF0 ∷ 4 ∷ 0 ∷ []) };
    world = w;
  });
  negotiate = λ address key w. ok (record { success = true; key = key; world = w });
  open_port = λ w. record { success = true; world = w };
  close_port = λ w. w;
  set_baud = λ baud w. w;
  drain = λ w. w;
  write_data = λ bs w. w ++ bs;
  polls = λ w. record { polls = (record { elapsed = 0; arrived = last_byte w }) ∷ []; world = w };
}

last_byte-append : (w : List ℕ) (b : ℕ) → last_byte (w ++ b ∷ []) ≡ b ∷ []
unfolding last_byte
last_byte-append [] b = refl
last_byte-append (x ∷ []) b = refl
last_byte-append (x ∷ y ∷ ys) b = last_byte-append (y ∷ ys) b

recorder-Echo : Echo recorder
unfolding recorder
recorder-Echo = record {
  writes = λ bs w. refl;
  drains = λ w. refl;
  replies = λ w b.
      ap (λ bs. record { polls = (record { elapsed = 0; arrived = bs }) ∷ []; world = w ++ b ∷ [] })
        (last_byte-append w b);
}

-- A device that stays silent.
unfoldable dead : Device (List ℕ)
unfolding recorder
dead = record recorder {
  polls = λ w. record {
    polls = (record { elapsed = 0; arrived = [] }) ∷ (record { elapsed = 501; arrived = [] }) ∷ [];
    world = w;
  };
}

abbrev pub firmware : List ℕ
firmware = 73 ∷ 84 ∷ 76 ∷ replicate 297 7

replicate-IsByte : (n : ℕ) → All IsByte (replicate n 7)
replicate-IsByte zero = tt
replicate-IsByte (suc n) = (omega arith, replicate-IsByte n)

firmware-IsByte : All IsByte firmware
firmware-IsByte = (omega arith, (omega arith, (omega arith, replicate-IsByte 297)))

abbrev pub itl : ItlFile
itl = record {
  number_of_blocks = 3;
  number_of_ram_bytes = 130;
  f_data = firmware;
  dwnl_block_size = 10;
  ssp_address = 0;
  encryption_status = false;
  key = payout_command.key;
  baud = 38400;
}

program_written : write_ram recorder itl [] ≡ ok ([] ++ take 130 (drop 128 firmware))
program_written = write_ram-bytes recorder (recorder-Echo.writes) itl [] (omega arith)

three_blocks :
    send_blocks recorder 3 itl 1 0 []
    ≡ ok (record {
      result = record { code = download_complete; download_block = 0 + 3 };
      world = [] ++ transcript itl 3 0;
    })
three_blocks =
    send_blocks-transcript recorder recorder-Echo 3 itl 1 0 [] refl (omega arith) firmware-IsByte

dead_unit :
    send_download_command dead (0x10 ∷ []) 0xFF []
    ≡ ok (record {
      result = 255 == 0xFF;
      world = (dead.polls (dead.write_data (0x10 ∷ []) (dead.drain []))).world;
    })
unfolding dead silent
dead_unit = send_download_command-silent dead (0x10 ∷ []) 0xFF [] refl

abbrev pub fresh : Fresh
fresh = record { itl = itl; ssp_c = payout_command }
