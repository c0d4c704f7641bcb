-- ===== src/Download/Transcript.antt =====
-- The bytes that a download puts on the line.
use e_ssp.Base.{
  ℕ, zero, suc, ◌+◌, ◌-◌, ◌*◌, ◌/◌, ◌%◌, ◌≤◌, ◌<◌, le→leb, ◌==◌, ==_iff, u8, bit_xor, bit_xor-lt,
  Bool, true, Bool-cases, inl, inr, List, [], ◌∷◌, ◌++◌, length, take, drop, take_more, drop-drop,
  All, IsByte, All-take, All-drop, Run, ok, ◌>>=◌, ◌≡◌, refl, sym, ap, ap₂, ◌∙◌, arith,
}
use mathlib.Core.List.{append-nil, append_assoc}
use native.Mathlib.Nat.{add-mul}
use e_ssp.Download.File.{ItlFile, bytes_at}
use e_ssp.Download.Port.{Device, Done, wait_byte, read_single_byte_reply, send_download_command}
use e_ssp.Download.Ram.{write_ram_blocks, write_ram, download_complete}
use e_ssp.Download.Main.{block_checksum, send_block, send_blocks}

pub bytes_at-ok :
    (file : List ℕ) (i n : ℕ) → i + n ≤ length file → bytes_at file i n ≡ ok (take n (drop i file))
bytes_at-ok file i n h = rw (le→leb (i + n) (length file) h) refl

-- A device for which it does not matter how the bytes are cut.
module _ {W : Type 0} (device : Device W) (no_bytes : (w : W) → device.write_data [] w ≡ w)
    (joins : (xs ys : List ℕ) (w : W)
      → device.write_data (xs ++ ys) w ≡ device.write_data ys (device.write_data xs w)) where
  write_ram_blocks-bytes :
      (n i : ℕ) (file : List ℕ) (w : W)
      → 128 + (i + n) * 128 ≤ length file
      → write_ram_blocks device n i file w
        ≡ ok (device.write_data (take (n * 128) (drop (128 + i * 128) file)) w)
  unfolding write_ram_blocks
  write_ram_blocks-bytes zero i file w h = ap ok (sym (no_bytes w))
  write_ram_blocks-bytes (suc n) i file w h =
      let block = take 128 (drop (128 + i * 128) file) in
      let rest = take (n * 128) (drop (128 + (i + 1) * 128) file) in
      let joined : block ++ rest ≡ take (suc n * 128) (drop (128 + i * 128) file) =
        ap (λ t. block ++ take (n * 128) t)
          (ap (λ m. drop m file) {x = 128 + (i + 1) * 128} {y = 128 + i * 128 + 128} (omega arith)
            ∙ sym (drop-drop 128 (128 + i * 128) file))
        ∙ sym (take_more 128 (n * 128) (drop (128 + i * 128) file))
        ∙ ap (λ m. take m (drop (128 + i * 128) file)) (omega arith) in
      ap (λ r. r >>= λ b. write_ram_blocks device n (i + 1) file (device.write_data b w))
        (bytes_at-ok file (128 + i * 128) 128 (omega arith))
      ∙ write_ram_blocks-bytes n (i + 1) file (device.write_data block w) (omega arith)
      ∙ ap ok (sym (joins block rest w) ∙ ap (λ t. device.write_data t w) joined)

  pub write_ram-whole :
      (itl : ItlFile) (w : W)
      → 128 + itl.number_of_ram_bytes ≤ length itl.f_data
      → write_ram device itl w
        ≡ ok (device.write_data (take itl.number_of_ram_bytes (drop 128 itl.f_data)) w)
  unfolding write_ram
  write_ram-whole itl w h =
      let file = itl.f_data in
      let q = itl.number_of_ram_bytes / 128 in
      let m = itl.number_of_ram_bytes % 128 in
      let whole : q * 128 + m ≡ itl.number_of_ram_bytes = omega arith in
      let first = take (q * 128) (drop 128 file) in
      let last = take m (drop (128 + q * 128) file) in
      let blocks = write_ram_blocks-bytes q 0 file w (omega arith) in
      elim (Bool-cases (m == 0)) [
        | inl e ↦
            let exact = (==_iff m 0).0 e in
            rw (blocks, e)
              (ap (λ t. ok (device.write_data (take t (drop 128 file)) w)) (omega (arith, exact)))
        | inr e ↦
            let joined : first ++ last ≡ take itl.number_of_ram_bytes (drop 128 file) =
              ap (λ t. first ++ take m t) (sym (drop-drop (q * 128) 128 file))
              ∙ sym (take_more (q * 128) m (drop 128 file))
              ∙ ap (λ t. take t (drop 128 file)) whole in
            rw (blocks, e)
              (ap (λ r. r >>= λ b. ok (device.write_data b (device.write_data first w)))
                  (bytes_at-ok file (128 + q * 128) m (omega arith))
                ∙ ap ok (sym (joins first last w) ∙ ap (λ t. device.write_data t w) joined))
      ]

-- At a device that records the bytes that are written, the bytes of the program go out in order and
-- whole: the 128-byte blocks and the rest after them.
pub write_ram-bytes :
    (device : Device (List ℕ)) (writes : (bs w : List ℕ) → device.write_data bs w ≡ w ++ bs)
    (itl : ItlFile) (w : List ℕ)
    → 128 + itl.number_of_ram_bytes ≤ length itl.f_data
    → write_ram device itl w ≡ ok (w ++ take itl.number_of_ram_bytes (drop 128 itl.f_data))
write_ram-bytes device writes itl w h =
    write_ram-whole device (λ v. writes [] v ∙ append-nil v)
      (λ xs ys v.
        writes (xs ++ ys) v
        ∙ sym (append_assoc v xs ys)
        ∙ sym (writes ys (device.write_data xs v) ∙ ap (λ t. t ++ ys) (writes xs v)))
      itl w h
    ∙ ap ok (writes (take itl.number_of_ram_bytes (drop 128 itl.f_data)) w)

-- A device on which each byte that was written last comes back at once.
pub record Echo (device : Device (List ℕ)) : Type 0 where
  pub writes : (bs w : List ℕ) → device.write_data bs w ≡ w ++ bs
  pub drains : (w : List ℕ) → device.drain w ≡ w
  pub replies :
      (w : List ℕ) (b : ℕ)
      → device.polls (w ++ b ∷ [])
        ≡ record { polls = (record { elapsed = 0; arrived = b ∷ [] }) ∷ []; world = w ++ b ∷ [] }

-- Block `c` of the firmware, counted from 0, with its checksum behind it.
abbrev pub block_bytes : ItlFile → ℕ → List ℕ
block_bytes itl c =
    take itl.dwnl_block_size
      (drop (128 + c * itl.dwnl_block_size + itl.number_of_ram_bytes) itl.f_data)

unfoldable pub transcript : ItlFile → ℕ → ℕ → List ℕ
transcript itl zero c = []
transcript itl (suc n) c =
    block_bytes itl c ++ block_checksum 0 (block_bytes itl c) ∷ transcript itl n (suc c)

pub block_checksum-lt :
    (chk : ℕ) (bs : List ℕ) → chk < 256 → All IsByte bs → block_checksum chk bs < 256
unfolding block_checksum
block_checksum-lt chk [] h all = h
block_checksum-lt chk (b ∷ bs) h all =
    block_checksum-lt (bit_xor chk b) bs (bit_xor-lt 8 chk b h all.0) all.1

module _ (device : Device (List ℕ)) (echo : Echo device) where
  send_download_command-echo :
      (w : List ℕ) (b : ℕ)
      → b < 256
      → send_download_command device (b ∷ []) b w
        ≡ ok (record { result = true; world = w ++ b ∷ [] })
  unfolding send_download_command read_single_byte_reply wait_byte
  send_download_command-echo w b h =
      let same : (u8 b == b) ≡ true = (==_iff (u8 b) b).1 (omega arith) in
      rw (echo.drains w, echo.writes (b ∷ []) w, echo.replies w b, same) refl

  send_block-echo :
      (itl : ItlFile) (cur_block c : ℕ) (w : List ℕ)
      → cur_block ≡ suc c
      → 128 + c * itl.dwnl_block_size + itl.number_of_ram_bytes + itl.dwnl_block_size
        ≤ length itl.f_data
      → All IsByte itl.f_data
      → send_block device itl cur_block w
        ≡ ok (record {
          result = true;
          world = (w ++ block_bytes itl c) ++ block_checksum 0 (block_bytes itl c) ∷ [];
        })
  unfolding send_block
  send_block-echo itl cur_block c w next room bytes =
      let offset = 128 + c * itl.dwnl_block_size + itl.number_of_ram_bytes in
      let small =
        block_checksum-lt 0 (block_bytes itl c) (omega arith)
          (All-take IsByte itl.dwnl_block_size _ (All-drop IsByte offset itl.f_data bytes)) in
      let confirm : List ℕ → Run (Done (List ℕ) Bool) = λ block.
        send_download_command device (block_checksum 0 block ∷ []) (block_checksum 0 block)
          (device.write_data block w) in
      let before : cur_block - 1 ≡ c = omega arith in
      ap
        (λ k.
          bytes_at itl.f_data (128 + k * itl.dwnl_block_size + itl.number_of_ram_bytes)
            itl.dwnl_block_size
          >>= confirm)
        before
      ∙ ap (λ r. r >>= confirm) (bytes_at-ok itl.f_data offset itl.dwnl_block_size room)
      ∙ send_download_command-echo (device.write_data (block_bytes itl c) w)
          (block_checksum 0 (block_bytes itl c)) small
      ∙ ap
          (λ t.
            ok (record { result = true; world = t ++ block_checksum 0 (block_bytes itl c) ∷ [] }))
          (echo.writes (block_bytes itl c) w)

  -- With a unit that echoes the checksums, and a file of bytes that holds all the blocks, every block
  -- goes out in order with its checksum behind it, the result is DOWNLOAD_COMPLETE, and the last
  -- block is the one confirmed.
  pub send_blocks-transcript :
      (n : ℕ) (itl : ItlFile) (cur_block c : ℕ) (w : List ℕ)
      → cur_block ≡ suc c
      → 128 + (c + n) * itl.dwnl_block_size + itl.number_of_ram_bytes ≤ length itl.f_data
      → All IsByte itl.f_data
      → send_blocks device n itl cur_block c w
        ≡ ok (record {
          result = record { code = download_complete; download_block = c + n };
          world = w ++ transcript itl n c;
        })
  unfolding send_blocks transcript
  send_blocks-transcript zero itl cur_block c w next room bytes =
      ap₂
        (λ b t.
          ok (record {
            result = record { code = download_complete; download_block = b };
            world = t;
          }))
        (omega arith) (sym (append-nil w))
  send_blocks-transcript (suc n) itl cur_block c w next room bytes =
      let size = itl.dwnl_block_size in
      let out = (w ++ block_bytes itl c) ++ block_checksum 0 (block_bytes itl c) ∷ [] in
      let split : (c + suc n) * size ≡ c * size + size + n * size =
        add-mul c (suc n) size
        ∙ ap (λ (t : ℕ). c * size + t)
            (ap (λ (t : ℕ). t * size) {x = suc n} {y = 1 + n} (omega arith) ∙ add-mul 1 n size)
        ∙ omega arith in
      let more : (suc c + n) * size ≡ (c + suc n) * size = ap (λ (t : ℕ). t * size) (omega arith) in
      rw (send_block-echo itl cur_block c w next (omega (arith, split)) bytes) (
        ap (λ r. send_blocks device n itl (cur_block + 1) r out) next
        ∙ send_blocks-transcript n itl (cur_block + 1) (suc c) out (omega arith)
            (omega (arith, more)) bytes
        ∙ ap₂
            (λ b t. ok (record {
              result = record { code = download_complete; download_block = b };
              world = t;
            }))
            (omega arith)
            (append_assoc (w ++ block_bytes itl c) (block_checksum 0 (block_bytes itl c) ∷ [])
                (transcript itl n (suc c))
              ∙ append_assoc w (block_bytes itl c)
                  (block_checksum 0 (block_bytes itl c) ∷ transcript itl n (suc c))))
