-- ===== src/Download/Loaded/Program.antt =====
-- The first half of a download at the unit that takes it, and the whole thread: in the end the unit
-- holds the program and the firmware of the file.
use e_ssp.Base.{
  ℕ, zero, suc, ◌+◌, ◌-◌, ◌*◌, ◌/◌, ◌%◌, ◌^◌, ◌≤◌, ◌<◌, ◌==◌, ==_iff, ◌&&◌, not, if◌then◌else◌, u8,
  Bool, true, false, List, [], ◌∷◌, ◌++◌, length, length-drop, take, drop, item, fill, lt→ltb, All,
  IsByte, All-take, All-drop, Run, ok, ◌>>=◌, ◌≡◌, refl, sym, ap, ap₂, ◌∙◌, arith,
}
use e_ssp.Defs.{Command}
use e_ssp.Helpers.{with_request}
use e_ssp.Helpers.Requests.{payload-with_request}
use e_ssp.Negotiation.Slave.{delivered}
use e_ssp.Download.File.{ItlFile, byte_at, be32_at}
use e_ssp.Download.Ram.{
  ssp_cmd_program, ssp_program_ram, download_complete, transfer_baud, check_ram, transfer_ram,
  send_header, download_ram_file,
}
use e_ssp.Download.Main.{block_checksum}
use e_ssp.Download.{download_command, download_itl_target}
use e_ssp.Download.Transcript.{bytes_at-ok, block_checksum-lt, write_ram-whole}
use e_ssp.Download.Loader.{
  idle, wait_header, loading, wait_start, Loader, Reaction, be32, packet_at, feed, loader,
  feed-append, feed-loading,
}
use e_ssp.Download.Loaded.Blocks.{length-take, between, loader_reply, download_main_file-stored}

byte_at-ok : (file : List ℕ) (i : ℕ) → i < length file → byte_at file i ≡ ok (item file i)
byte_at-ok file i h = rw (lt→ltb i (length file) h) refl

be32_at-ok : (file : List ℕ) (i : ℕ) → i + 3 < length file → be32_at file i ≡ ok (be32 file i)
unfolding be32_at
be32_at-ok file i h =
    rw
      (
        lt→ltb i (length file) (omega arith),
        lt→ltb (i + 1) (length file) (omega arith),
        lt→ltb (i + 2) (length file) (omega arith),
        lt→ltb (i + 3) (length file) h,
      )
      refl

item-take : (n : ℕ) (xs : List ℕ) (i : ℕ) → i < n → item (take n xs) i ≡ item xs i
item-take zero xs i h = absurd (omega arith)
item-take (suc n) [] i h = refl
item-take (suc n) (x ∷ xs) zero h = refl
item-take (suc n) (x ∷ xs) (suc i) h = item-take n xs i (omega arith)

be32-take : (n : ℕ) (xs : List ℕ) (i : ℕ) → i + 3 < n → be32 (take n xs) i ≡ be32 xs i
be32-take n xs i h =
    let at = item-take n xs in
    rw (at i (omega arith), at (i + 1) (omega arith), at (i + 2) (omega arith), at (i + 3) h) refl

chosen :
    (b : Bool) (r : Run ℕ)
    → (x : ℕ) × (r ≡ ok x)
    → (y : ℕ) × (elim b as (λ c. Run ℕ) [
      | false ↦ ok 38400
      | true ↦ r >>= λ baud. ok (if baud == 0 then 38400 else baud)
    ]
        ≡ ok y)
chosen false r h = (38400, refl)
chosen true r h = (if h.0 == 0 then 38400 else h.0, rw (h.1) refl)

-- The rate is found.
transfer_baud-ok : (file : List ℕ) → 128 ≤ length file → (baud : ℕ) × (transfer_baud file ≡ ok baud)
unfolding transfer_baud
transfer_baud-ok file h =
    let found =
      chosen (not (item file 5 == 0x9) && not (item file 5 == 0xA)) (be32_at file 68)
        (be32 file 68, be32_at-ok file 68 (omega arith)) in
    (found.0, rw (byte_at-ok file 5 (omega arith)) (found.1))

-- The unit once it has the program.
abbrev pub programmed : Loader → List ℕ → Loader
programmed u ram = record u { phase = wait_start; sum = 0; ram = ram; replied = [] }

loader_send :
    (c : Command) (bytes : List ℕ) (w : Loader) (a : Reaction)
    → packet_at w.phase bytes w ≡ a
    → loader.send (with_request c bytes) w
      ≡ ok (record {
        success = true;
        cmd = delivered (with_request c bytes) a.reply;
        world = a.unit;
      })
unfolding loader
loader_send c bytes w a e =
    ap
      (λ (r : Reaction).
        ok (record {
          success = true;
          cmd = delivered (with_request c bytes) r.reply;
          world = r.unit;
        }))
      (ap (λ bs. packet_at w.phase bs w) (payload-with_request c bytes) ∙ e)

module _ (u : Loader) (n : ℕ) where
  -- The unit when it has taken the header of a file whose program has `suc n` bytes.
  abbrev ready : Loader
  ready = record u { phase = loading n; sum = 0 }

  -- The bytes of the program, and their checksum.
  transfer_ram-loaded :
      (itl : ItlFile) (w : Loader)
      → w ≡ ready
      → itl.number_of_ram_bytes ≡ suc n
      → 128 + suc n ≤ length itl.f_data
      → All IsByte itl.f_data
      → item itl.f_data 0x10 ≡ block_checksum 0 (take (suc n) (drop 128 itl.f_data))
      → (baud : ℕ) × (transfer_ram loader itl w
          ≡ ok (record {
            result = record { code = download_complete; itl = record itl { baud = baud } };
            world = programmed u (u.ram ++ take (suc n) (drop 128 itl.f_data));
          }))
  unfolding transfer_ram check_ram loader
  transfer_ram-loaded itl w at bytes room all sum =
      let file = itl.f_data in
      let program = take (suc n) (drop 128 file) in
      let chk = block_checksum 0 program in
      let rate = transfer_baud-ok file (omega arith) in
      let set = record itl { baud = rate.0 } in
      let small =
        block_checksum-lt 0 program (omega arith)
          (All-take IsByte (suc n) _ (All-drop IsByte 128 file all)) in
      let written = write_ram-whole loader (λ w. refl) feed-append set w (omega arith) in
      let w1 = feed (take itl.number_of_ram_bytes (drop 128 file)) w in
      let full : length program ≡ suc n =
        length-take (suc n) (drop 128 file) (omega (arith, length-drop 128 file)) in
      let loaded : w1 ≡ record (programmed u (u.ram ++ program)) { replied = chk ∷ [] } =
        ap₂ (λ m x. feed (take m (drop 128 file)) x) bytes at
        ∙ feed-loading program n (record u { sum = 0 }) full in
      let test : (item file 0x10 == u8 chk) ≡ true =
        (==_iff (item file 0x10) (u8 chk)).1 (omega (arith, sum)) in
      (
        rate.0,
        rw
            (
              rate.1,
              written,
              loader_reply w1 (programmed u (u.ram ++ program)) chk loaded,
              byte_at-ok file 0x10 (omega arith),
              test,
            )
            refl,
      )

  -- The header, in a packet.
  send_header-loaded :
      (itl : ItlFile) (c : Command)
      → be32 itl.f_data 7 ≡ suc n
      → 128 ≤ length itl.f_data
      → send_header loader itl c (record u { phase = wait_header }) ≡ transfer_ram loader itl ready
  unfolding send_header packet_at fill
  send_header-loaded itl c counted room =
      let file = itl.f_data in
      let header = take 128 file in
      let a : Reaction = record { reply = 0xF0 ∷ []; unit = ready } in
      let left : be32 header 7 - 1 ≡ n =
        omega (arith, be32-take 128 file 7 (omega arith), counted) in
      rw (bytes_at-ok file 0 128 room) (
        rw
          (loader_send (record c { encryption_status = false }) header
            (record u { phase = wait_header }) a
            (ap (λ m. record { reply = 0xF0 ∷ []; unit = record u { phase = loading m; sum = 0 } })
              left))
          refl)

  -- The program of the file is in the unit.
  download_ram_file-loaded :
      (itl : ItlFile) (c : Command)
      → u.size < 2 ^ 16
      → itl.number_of_ram_bytes ≡ suc n
      → be32 itl.f_data 7 ≡ suc n
      → 128 + suc n ≤ length itl.f_data
      → All IsByte itl.f_data
      → item itl.f_data 0x10 ≡ block_checksum 0 (take (suc n) (drop 128 itl.f_data))
      → (baud : ℕ) × (download_ram_file loader itl c (record u { phase = idle })
          ≡ ok (record {
            result = record {
              code = download_complete;
              itl = record itl { dwnl_block_size = u.size; baud = baud };
            };
            world = programmed u (u.ram ++ take (suc n) (drop 128 itl.f_data));
          }))
  unfolding download_ram_file packet_at fill
  download_ram_file-loaded itl c small bytes counted room all sum =
      let a : Reaction = record {
        reply = 0xF0 ∷ u.size % 256 ∷ u.size / 256 % 256 ∷ [];
        unit = record u { phase = wait_header };
      } in
      let sent =
        loader_send c (ssp_cmd_program ∷ ssp_program_ram ∷ []) (record u { phase = idle }) a refl in
      let size : u.size % 256 + u.size / 256 % 256 * 2 ^ 8 ≡ u.size = omega arith in
      let c1 = delivered (with_request c (ssp_cmd_program ∷ ssp_program_ram ∷ [])) a.reply in
      let header =
        send_header-loaded (record itl { dwnl_block_size = u.size }) c1 counted (omega arith) in
      let program =
        transfer_ram-loaded (record itl { dwnl_block_size = u.size }) ready refl bytes room all
          sum in
      (
        program.0,
        rw sent (
            ap
              (λ m.
                send_header loader (record itl { dwnl_block_size = m }) c1
                  (record u { phase = wait_header }))
              size
            ∙ header
            ∙ program.1),
      )

  -- Both halves, one behind the other.
  thread-stored :
      (ssp_c : Command) (itl : ItlFile)
      → 0 < u.size
      → u.size < 2 ^ 16
      → be32 itl.f_data 7 ≡ suc n
      → 128 + itl.number_of_blocks * u.size + be32 itl.f_data 7 ≤ length itl.f_data
      → All IsByte itl.f_data
      → item itl.f_data 0x10 ≡ block_checksum 0 (take (suc n) (drop 128 itl.f_data))
      → download_itl_target loader ssp_c itl (record u { phase = idle })
        ≡ ok (record {
          result = record { download_in_progress = false; download_block = download_complete };
          world =
              between
                (record u { ram = u.ram ++ take (suc n) (drop 128 itl.f_data) })
                (u.flash
                  ++ take
                      (itl.number_of_blocks * u.size)
                      (drop (128 + be32 itl.f_data 7) itl.f_data));
        })
  unfolding download_itl_target loader
  thread-stored ssp_c itl some_size small counted room all sum =
      let file = itl.f_data in
      let plain = record (download_command itl.ssp_address ssp_c) { encryption_status = false } in
      let c =
        if itl.encryption_status
        then record plain { encryption_status = true; key = itl.key }
        else plain in
      let set = record itl { number_of_ram_bytes = be32 file 7 } in
      let ram =
        download_ram_file-loaded set c small counted counted (omega (arith, counted)) all sum in
      let main =
        download_main_file-stored (record set { dwnl_block_size = u.size; baud = ram.0 })
          (record u { ram = u.ram ++ take (suc n) (drop 128 file) }) refl some_size all room in
      rw (be32_at-ok file 7 (omega arith)) (rw (ram.1) (rw main refl))

-- The thread of a download, with a unit that takes it, behind a port that gets the same handle when
-- it is opened again: the file holds the program and all the blocks, its bytes are bytes, the
-- checksum of the program is in its header, neither the program nor a block is empty, and the size
-- of a block fits two bytes. The download ends with DOWNLOAD_COMPLETE, the unit has stored exactly
-- the program and the blocks of the file, in order, behind what it held before, and no download is
-- in progress.
pub download_itl_target-stored :
    (ssp_c : Command) (itl : ItlFile) (u : Loader)
    → u.phase ≡ idle
    → 0 < u.size
    → u.size < 2 ^ 16
    → 0 < be32 itl.f_data 7
    → 128 + itl.number_of_blocks * u.size + be32 itl.f_data 7 ≤ length itl.f_data
    → All IsByte itl.f_data
    → item itl.f_data 0x10 ≡ block_checksum 0 (take (be32 itl.f_data 7) (drop 128 itl.f_data))
    → (v : Loader) × (download_itl_target loader ssp_c itl u
        ≡ ok (record {
          result = record { download_in_progress = false; download_block = download_complete };
          world = v;
        }))
      × (v.ram ≡ u.ram ++ take (be32 itl.f_data 7) (drop 128 itl.f_data))
      × (v.flash
          ≡ u.flash
            ++ take (itl.number_of_blocks * u.size) (drop (128 + be32 itl.f_data 7) itl.f_data))
download_itl_target-stored ssp_c itl u at some_size small some_bytes room all sum =
    let file = itl.f_data in
    let n = be32 file 7 - 1 in
    let more : be32 file 7 ≡ suc n = omega arith in
    let ram = u.ram ++ take (suc n) (drop 128 file) in
    let flash = u.flash ++ take (itl.number_of_blocks * u.size) (drop (128 + be32 file 7) file) in
    (
      between (record u { ram = ram }) flash,
      ap (λ p. download_itl_target loader ssp_c itl (record u { phase = p })) at
          ∙ thread-stored u n ssp_c itl some_size small more room all
              (sum ∙ ap (λ m. block_checksum 0 (take m (drop 128 file))) more),
      ap (λ m. u.ram ++ take m (drop 128 file)) (sym more),
      refl,
    )
