-- ===== src/Download/Loaded/Blocks.antt =====
-- The raw bytes of a download at the unit that takes it: the commands of one byte, the header, and
-- the blocks.
use e_ssp.Base.{
  ℕ, zero, suc, ◌+◌, ◌-◌, ◌*◌, ◌≤◌, ◌<◌, ◌==◌, ==_iff, u8, Bool, true, List, [], ◌∷◌, ◌++◌, length,
  length-drop, take, drop, take_more, drop-drop, All, IsByte, All-take, All-drop, Run, ok, ◌>>=◌,
  ◌≡◌, refl, sym, ap, ap₂, ◌∙◌, arith,
}
use mathlib.Core.List.{append-nil, append_assoc}
use native.Mathlib.Nat.{add-mul}
use e_ssp.Download.File.{ItlFile, bytes_at}
use e_ssp.Download.Port.{Done, wait_byte, read_single_byte_reply, send_download_command}
use e_ssp.Download.Ram.{download_complete}
use e_ssp.Download.Main.{
  Stored, block_checksum, send_block, send_blocks, acknowledged, download_main_file,
}
use e_ssp.Download.Transcript.{bytes_at-ok, block_checksum-lt}
use e_ssp.Download.Loader.{
  wait_start, heading, storing, wait_sum, Loader, feed_at, feed, loader, feed-heading, feed-storing,
}

pub length-take : (n : ℕ) (xs : List ℕ) → n ≤ length xs → length (take n xs) ≡ n
length-take zero xs h = refl
length-take (suc n) [] h = absurd (omega arith)
length-take (suc n) (x ∷ xs) h = omega (arith, length-take n xs)

-- The unit without a reply that waits.
abbrev pub quiet : Loader → Loader
quiet u = record u { replied = [] }

pub loader_reply :
    (u v : Loader) (b : ℕ)
    → u ≡ record v { replied = b ∷ [] }
    → read_single_byte_reply loader 500 u ≡ ok (record { result = b; world = quiet v })
unfolding read_single_byte_reply wait_byte loader
loader_reply u v b e = rw e refl

-- A command whose reply is the one expected.
loader_command :
    (bytes : List ℕ) (b : ℕ) (u v : Loader)
    → b < 256
    → feed bytes (quiet u) ≡ record v { replied = b ∷ [] }
    → send_download_command loader bytes b u ≡ ok (record { result = true; world = quiet v })
unfolding send_download_command loader
loader_command bytes b u v h e =
    let same : (u8 b == b) ≡ true = (==_iff (u8 b) b).1 (omega arith) in
    rw (loader_reply (feed bytes (quiet u)) v b e, same) refl

-- The byte that starts the program.
feed-start :
    (bs : List ℕ) (u : Loader)
    → length bs ≡ 1
    → feed bs (record u { phase = wait_start })
      ≡ record u { phase = heading 127; replied = 0x32 ∷ [] }
unfolding feed feed_at
feed-start [] u e = absurd (omega arith)
feed-start (b ∷ []) u e = refl
feed-start (b ∷ c ∷ bs) u e = absurd (omega arith)

-- A checksum.
feed-sum :
    (b : ℕ) (u : Loader)
    → feed (b ∷ []) (record u { phase = wait_sum })
      ≡ record u { phase = storing (u.size - 1); sum = 0; replied = u.sum ∷ [] }
unfolding feed feed_at
feed-sum b u = refl

-- The unit between two blocks, with what it has stored.
abbrev pub between : Loader → List ℕ → Loader
between u flash = record u { phase = storing (u.size - 1); sum = 0; flash = flash; replied = [] }

abbrev chunk : List ℕ → ℕ → ℕ → List ℕ
chunk file i n = take n (drop i file)

chunk-more :
    (file : List ℕ) (i size n j : ℕ)
    → j ≡ i + size
    → chunk file i size ++ chunk file j (n * size) ≡ chunk file i (suc n * size)
chunk-more file i size n j e =
    let whole : size + n * size ≡ suc n * size =
      omega
        (arith, ap (λ (t : ℕ). t * size) {x = 1 + n} {y = suc n} (omega arith), add-mul 1 n size) in
    ap (λ m. chunk file i size ++ chunk file m (n * size)) e
    ∙ ap (λ t. chunk file i size ++ take (n * size) t) (sym (drop-drop size i file))
    ∙ sym (take_more size (n * size) (drop i file))
    ∙ ap (λ m. chunk file i m) whole

module _ (itl : ItlFile) (u : Loader) (same : itl.dwnl_block_size ≡ u.size) (some_size : 0 < u.size)
    (all : All IsByte itl.f_data) where
  -- Where block `c`, counted from 0, is in the file.
  abbrev offset : ℕ → ℕ
  offset c = 128 + c * itl.dwnl_block_size + itl.number_of_ram_bytes

  send_block-stored :
      (c : ℕ) (flash : List ℕ)
      → offset c + itl.dwnl_block_size ≤ length itl.f_data
      → send_block loader itl (suc c) (between u flash)
        ≡ ok (record {
          result = true;
          world = between u (flash ++ chunk itl.f_data (offset c) itl.dwnl_block_size);
        })
  unfolding send_block loader
  send_block-stored c flash room =
      let size = itl.dwnl_block_size in
      let block = chunk itl.f_data (offset c) size in
      let chk = block_checksum 0 block in
      let full : length block ≡ suc (u.size - 1) =
        length-take size (drop (offset c) itl.f_data)
          (omega (arith, length-drop (offset c) itl.f_data))
        ∙ omega arith in
      let small =
        block_checksum-lt 0 block (omega arith)
          (All-take IsByte size _ (All-drop IsByte (offset c) itl.f_data all)) in
      let stored =
        feed-storing block (u.size - 1) (record u { sum = 0; flash = flash; replied = [] }) full in
      let summed =
        ap (λ x. feed (chk ∷ []) (quiet x)) stored
        ∙ feed-sum chk (record u { sum = chk; flash = flash ++ block; replied = [] }) in
      let confirm : List ℕ → Run (Done Loader Bool) = λ b.
        send_download_command loader (block_checksum 0 b ∷ []) (block_checksum 0 b)
          (feed b (between u flash)) in
      ap (λ k. bytes_at itl.f_data (128 + k * size + itl.number_of_ram_bytes) size >>= confirm)
        {x = suc c - 1} {y = c} (omega arith)
      ∙ ap (λ r. r >>= confirm) (bytes_at-ok itl.f_data (offset c) size room)
      ∙ loader_command (chk ∷ []) chk (feed block (between u flash)) (between u (flash ++ block))
          small summed

  pub send_blocks-stored :
      (n c : ℕ) (flash : List ℕ)
      → offset (c + n) ≤ length itl.f_data
      → send_blocks loader n itl (suc c) c (between u flash)
        ≡ ok (record {
          result = record { code = download_complete; download_block = c + n };
          world = between u (flash ++ chunk itl.f_data (offset c) (n * itl.dwnl_block_size));
        })
  unfolding send_blocks
  send_blocks-stored zero c flash room =
      ap₂
        (λ b f. ok (record {
          result = record { code = download_complete; download_block = b };
          world = between u f;
        }))
        (omega arith)
        (sym (append-nil flash)
          ∙ ap (λ m. flash ++ chunk itl.f_data (offset c) m) {x = 0} {y = 0 * itl.dwnl_block_size}
              (omega arith))
  send_blocks-stored (suc n) c flash room =
      let size = itl.dwnl_block_size in
      let block = chunk itl.f_data (offset c) size in
      let next : offset (suc c) ≡ offset c + size =
        omega (
          arith,
          ap (λ (t : ℕ). t * size) {x = suc c} {y = c + 1} (omega arith),
          add-mul c 1 size,
        ) in
      let last : (c + suc n) * size ≡ (suc c) * size + n * size =
        ap (λ (t : ℕ). t * size) {x = c + suc n} {y = suc c + n} (omega arith)
        ∙ add-mul (suc c) n size in
      let same_end : (suc c + n) * size ≡ (c + suc n) * size =
        ap (λ (t : ℕ). t * size) (omega arith) in
      rw (send_block-stored c flash (omega (arith, next, last))) (
        ap (λ k. send_blocks loader n itl k (suc c) (between u (flash ++ block))) {x = suc c + 1}
          {y = suc (suc c)} (omega arith)
        ∙ send_blocks-stored n (suc c) (flash ++ block) (omega (arith, same_end))
        ∙ ap₂
            (λ b f. ok (record {
              result = record { code = download_complete; download_block = b };
              world = between u f;
            }))
            (omega arith)
            (append_assoc flash block (chunk itl.f_data (offset (suc c)) (n * size))
              ∙ ap (λ t. flash ++ t)
                  (chunk-more itl.f_data (offset c) size n (offset (suc c)) next)))

acknowledged-ok :
    (bytes : List ℕ) (u v : Loader) (next : Loader → Run (Done Loader Stored))
    → feed bytes (quiet u) ≡ record v { replied = 0x32 ∷ [] }
    → acknowledged loader bytes u next ≡ next (quiet v)
unfolding acknowledged
acknowledged-ok bytes u v next e = rw (loader_command bytes 0x32 u v (omega arith) e) refl

-- The start of the program in the unit, the header, and all the blocks.
pub download_main_file-stored :
    (itl : ItlFile) (u : Loader)
    → itl.dwnl_block_size ≡ u.size
    → 0 < u.size
    → All IsByte itl.f_data
    → 128 + itl.number_of_blocks * itl.dwnl_block_size + itl.number_of_ram_bytes ≤ length itl.f_data
    → download_main_file loader itl (record u { phase = wait_start; sum = 0; replied = [] })
      ≡ ok (record {
        result = record { code = download_complete; download_block = itl.number_of_blocks };
        world = between u (
            u.flash
            ++ take
                (itl.number_of_blocks * itl.dwnl_block_size)
                (drop (128 + itl.number_of_ram_bytes) itl.f_data));
      })
unfolding download_main_file loader
download_main_file-stored itl u same some_size all room =
    let file = itl.f_data in
    let n = itl.number_of_blocks in
    let v1 = record u { phase = heading 127; sum = 0 } in
    let v2 = record u { phase = storing (u.size - 1); sum = 0 } in
    let blocks : Loader → Run (Done Loader Stored) = send_blocks loader n itl 1 0 in
    let second : Loader → Run (Done Loader Stored) =
      λ w. bytes_at file 0 128 >>= λ header. acknowledged loader header w blocks in
    let rest = record u { sum = 0; replied = [] } in
    ap (λ r. r >>= λ start. acknowledged loader start (record rest { phase = wait_start }) second)
      (bytes_at-ok file 6 1 (omega arith))
    ∙ acknowledged-ok (take 1 (drop 6 file)) (record rest { phase = wait_start }) v1 second
        (feed-start (take 1 (drop 6 file)) rest
          (length-take 1 (drop 6 file) (omega (arith, length-drop 6 file))))
    ∙ ap (λ r. r >>= λ header. acknowledged loader header (quiet v1) blocks)
        (bytes_at-ok file 0 128 (omega arith))
    ∙ acknowledged-ok (take 128 file) (quiet v1) v2 blocks
        (feed-heading (take 128 file) 127 rest (length-take 128 file (omega arith)))
    ∙ send_blocks-stored itl u same some_size all n 0 u.flash
        (omega (arith, ap (λ (t : ℕ). t * itl.dwnl_block_size) {x = 0 + n} {y = n} (omega arith)))
    ∙ ap₂
        (λ b i. ok (record {
          result = record { code = download_complete; download_block = b };
          world = between u (u.flash ++ take (n * itl.dwnl_block_size) (drop i file));
        }))
        (omega arith) (omega arith)
