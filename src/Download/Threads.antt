-- ===== src/Download/Threads.antt =====
-- The threads of the download beside their callers: the steps of _eSSP/lib/SSPDownload.c on the global
-- `download_in_progress` in any order, and the destructor `my_fini` of _eSSP/lib/ITLSSPProc.c.
use e_ssp.Base.{
  Post-value, u32, ℕ, suc, ◌≤◌, ltb, Bool, true, false, List, [], ◌∷◌, Option, none, some, Run, ok,
  waiting, if◌then◌else◌, Post, Post-ok, Post-after, Post-weaken, ◌≡◌, refl, ap, ◌∙◌, arith,
}
use e_ssp.Defs.{Command, ssp_cmd_sync, ssp_response_ok}
use e_ssp.Link.{Sent}
use e_ssp.Helpers.{with_request}
use e_ssp.Download.File.{ItlFile, is_itl, header_blocks}
use e_ssp.Download.Port.{Device, Done}
use e_ssp.Download.{
  download_command, Progress, Launched, Fresh, refused, started, negotiate_download, check_target,
  download_data_to_target, not_itl_file, port_open_fail, sync_connection_fail,
}
use e_ssp.Download.Launch.{Post-test}

-- The loop `while (download_in_progress)`, along what it reads.
unfoldable pub wait_download : List Bool → Run (Unit {0})
wait_download [] = waiting
wait_download (b ∷ bs) = if b then wait_download bs else ok tt

-- The destructor of the library.
unfoldable pub my_fini : Bool → List Bool → Run (Unit {0})
my_fini in_progress reads = if in_progress then wait_download reads else ok tt

-- The globals, the port, and how many threads are created and not yet begun, are between their first
-- and their last assignment to `download_in_progress`, and are past it.
pub record Threads (W : Type 0) : Type 0 where
  pub progress : Progress
  pub world : W
  pub created : ℕ
  pub running : ℕ
  pub ending : ℕ

abbrev pub one_more : Option ItlFile → ℕ → ℕ
one_more none n = n
one_more (some itl) n = suc n

one_more-le : (t : Option ItlFile) (n : ℕ) → n ≡ 0 → one_more t n ≤ 1
one_more-le none n h = omega arith
one_more-le (some itl) n h = omega arith

module _ {W : Type 0} (device : Device W) where
  -- A call of `DownloadDataToTarget` that returns `d`.
  abbrev pub after_launch : Threads W → Done W Launched → Threads W
  after_launch s d = record s {
    progress = d.result.progress;
    world = d.world;
    created = one_more d.result.thread s.created;
  }

  -- `download_in_progress = 1`, at the start of a thread that is one of `suc n`.
  abbrev pub after_begin : Threads W → ℕ → Threads W
  after_begin s n = record s {
    progress = record (s.progress) { download_in_progress = true };
    created = n;
    running = suc s.running;
  }

  -- `download_in_progress = 0`, at its end.
  abbrev pub after_finish : Threads W → ℕ → Threads W
  after_finish s n = record s {
    progress = record (s.progress) { download_in_progress = false };
    running = n;
    ending = suc s.ending;
  }

  -- The steps: a call, and the assignments of the threads. `waits` says whether the callers wait for
  -- the thread of an earlier call to begin.
  pub data Step (waits : Bool) : Threads W → Threads W → Type 0 where
    launch :
        (s : Threads W) (fresh : Fresh) (file : List ℕ) (ssp_address key : ℕ) (d : Done W Launched)
        → (waits ≡ true → s.created ≡ 0)
        → download_data_to_target device fresh file ssp_address key s.progress s.world ≡ ok d
        → Step waits s (after_launch s d)
    begin : (s : Threads W) (n : ℕ) → s.created ≡ suc n → Step waits s (after_begin s n)
    transfer :
        (s : Threads W) (block : ℕ) (w : W)
        → Step waits s
            (record s { progress = record (s.progress) { download_block = block }; world = w })
    finish : (s : Threads W) (n : ℕ) → s.running ≡ suc n → Step waits s (after_finish s n)
    report :
        (s : Threads W) (n code : ℕ)
        → s.ending ≡ suc n
        → Step waits s
            (record s { progress = record (s.progress) { download_block = code }; ending = n })

  pub data Steps (waits : Bool) : Threads W → Threads W → Type 0 where
    none_yet : (s : Threads W) → Steps waits s s
    then_step : (s t u : Threads W) → Step waits s t → Steps waits t u → Steps waits s u

  -- No more than one download, and the global says whether it has begun.
  pub data AtMostOne (s : Threads W) : Type 0 where
    at_rest : s.running ≡ 0 → s.created ≤ 1 → s.progress.download_in_progress ≡ false → AtMostOne s
    at_work : s.running ≡ 1 → s.created ≡ 0 → s.progress.download_in_progress ≡ true → AtMostOne s

  Keeps : Bool → Done W Launched → Type 0
  Keeps b d = d.result.progress.download_in_progress ≡ b

  negotiate_download-Keeps :
      (itl : ItlFile) (key : ℕ) (p : Progress) (w : W)
      → Post (Keeps p.download_in_progress) (negotiate_download device itl key p w)
  unfolding negotiate_download Keeps
  negotiate_download-Keeps itl key p w =
      Post-test (Keeps p.download_in_progress) _ (started device itl p w) (ltb 0 key)
        (λ e.
          Post-after (Keeps p.download_in_progress) (device.negotiate itl.ssp_address itl.key w) _
            λ n.
              Post-test (Keeps p.download_in_progress)
                (started device
                  (record itl {
                    encryption_status = true;
                    key = record (n.key) { fixed_key = key };
                  })
                  p n.world)
                (refused device sync_connection_fail p (device.close_port n.world)) n.success
                (λ s. Post-ok (Keeps p.download_in_progress) _ refl)
                (λ s. Post-ok (Keeps p.download_in_progress) _ refl))
        (λ e. Post-ok (Keeps p.download_in_progress) _ refl)

  check_target-Keeps :
      (fresh : Fresh) (itl : ItlFile) (key : ℕ) (p : Progress) (w : W)
      → Post (Keeps p.download_in_progress) (check_target device fresh itl key p w)
  unfolding check_target Keeps
  check_target-Keeps fresh itl key p w =
      Post-test (Keeps p.download_in_progress) _
        (refused device port_open_fail p (device.open_port w).world) (device.open_port w).success
        (λ e.
          Post-after (Keeps p.download_in_progress) (device.send _ (device.open_port w).world) _
            λ s.
              Post-test (Keeps p.download_in_progress) (negotiate_download device itl key p s.world)
                (refused device sync_connection_fail p (device.close_port s.world)) _
                (λ t. negotiate_download-Keeps itl key p s.world)
                (λ t. Post-ok (Keeps p.download_in_progress) _ refl))
        (λ e. Post-ok (Keeps p.download_in_progress) _ refl)

  -- A call leaves `download_in_progress`, and creates no thread where it is set.
  Leaves : Progress → Done W Launched → Type 0
  Leaves p d =
      Keeps p.download_in_progress d × (p.download_in_progress ≡ true → d.result.thread ≡ none)

  download_data_to_target-Leaves :
      (fresh : Fresh) (file : List ℕ) (ssp_address key : ℕ) (p : Progress) (w : W)
      → Post (Leaves p) (download_data_to_target device fresh file ssp_address key p w)
  unfolding download_data_to_target Keeps Leaves
  download_data_to_target-Leaves fresh file ssp_address key p w =
      let reset = record p { download_block = 0 } in
      Post-test (Leaves p) (refused device port_open_fail p w) _ p.download_in_progress
        (λ e. Post-ok (Leaves p) _ (refl, λ h. refl))
        (λ e.
          Post-weaken (Keeps p.download_in_progress) (Leaves p) _
            (Post-after (Keeps p.download_in_progress) (is_itl file) _ λ b.
              Post-test (Keeps p.download_in_progress) _ (refused device not_itl_file reset w) b
                (λ t. Post-after (Keeps p.download_in_progress) (header_blocks file) _ λ n.
                  check_target-Keeps fresh
                    (record (fresh.itl) {
                      f_data = file;
                      number_of_blocks = n;
                      ssp_address = ssp_address;
                    })
                    key reset w)
                (λ t. Post-ok (Keeps p.download_in_progress) _ refl))
            (λ d k. (k, λ h. absurd (ground arith))))

  launched :
      (s : Threads W) (d : Done W Launched)
      → Leaves s.progress d
      → s.created ≡ 0
      → AtMostOne s
      → AtMostOne (after_launch s d)
  unfolding Leaves Keeps
  launched s d (keeps, none_set) fresh (at_rest idle small off) =
      at_rest idle (one_more-le d.result.thread s.created fresh) (keeps ∙ off)
  launched s d (keeps, none_set) fresh (at_work one created on) =
      at_work one (ap (λ t. one_more t s.created) (none_set on) ∙ created) (keeps ∙ on)

  step-AtMostOne : {s t : Threads W} → Step true s t → AtMostOne s → AtMostOne t
  step-AtMostOne (launch s fresh file ssp_address key d alone e) is =
      launched s d
        (Post-value (Leaves s.progress) _ d
          (download_data_to_target-Leaves fresh file ssp_address key s.progress s.world) e)
        (alone refl) is
  step-AtMostOne (begin s n e) (at_rest idle small off) = at_work (omega arith) (omega arith) refl
  step-AtMostOne (begin s n e) (at_work one created on) = absurd (omega arith)
  step-AtMostOne (transfer s block w) (at_rest idle small off) = at_rest idle small off
  step-AtMostOne (transfer s block w) (at_work one created on) = at_work one created on
  step-AtMostOne (finish s n e) (at_rest idle small off) = absurd (omega arith)
  step-AtMostOne (finish s n e) (at_work one created on) = at_rest (omega arith) (omega arith) refl
  step-AtMostOne (report s n code e) (at_rest idle small off) = at_rest idle small off
  step-AtMostOne (report s n code e) (at_work one created on) = at_work one created on

  -- When each caller of `DownloadDataToTarget` waits until the thread of the call before it has begun, then
  -- whatever the port does and in whatever order the steps are taken, from a state with no more
  -- than one download there is never more than one, and `download_in_progress` says whether
  -- it has begun and not finished.
  pub Steps-AtMostOne : {s t : Threads W} → Steps true s t → AtMostOne s → AtMostOne t
  Steps-AtMostOne (none_yet s) is = is
  Steps-AtMostOne (then_step s t u one more) is = Steps-AtMostOne more (step-AtMostOne one is)

-- The state without a created or a running thread.
abbrev pub at_start : {W : Type 0} → ℕ → ℕ → W → Threads W
at_start block ending w = record {
  progress = record { download_in_progress = false; download_block = block };
  world = w;
  created = 0;
  running = 0;
  ending = ending;
}

-- The port opens whenever it is asked to, and the unit answers every command with
-- `SSP_RESPONSE_OK`.
pub record IsReady {W : Type 0} (device : Device W) : Type 0 where
  pub opens : (w : W) → (device.open_port w).success ≡ true
  pub answer : Command → W → Sent W
  pub sends : (c : Command) (w : W) → device.send c w ≡ ok (answer c w)
  pub succeeds : (c : Command) (w : W) → (answer c w).success ≡ true
  pub accepts : (c : Command) (w : W) → (answer c w).cmd.response_data 0 ≡ ssp_response_ok

-- A firmware file whose header gives this number of blocks.
pub record IsFirmware (file : List ℕ) (blocks : ℕ) : Type 0 where
  pub letters : is_itl file ≡ ok true
  pub counted : header_blocks file ≡ ok blocks

module _ {W : Type 0} (device : Device W) (ready : IsReady device) where
  module _ (fresh : Fresh) (file : List ℕ) (blocks ssp_address : ℕ)
      (is : IsFirmware file blocks) where
    abbrev file_to_send : ItlFile
    file_to_send = record (fresh.itl) {
      f_data = file;
      number_of_blocks = blocks;
      ssp_address = ssp_address;
    }

    abbrev sync_command : Command
    sync_command =
        with_request
          (record (download_command ssp_address fresh.ssp_c) { encryption_status = false })
          (ssp_cmd_sync ∷ [])

    -- What a call without a key returns, if no download is in progress.
    abbrev call_of : W → Done W Launched
    call_of w = record {
      result = record {
        code = u32 blocks;
        thread = some file_to_send;
        progress = record { download_in_progress = false; download_block = 0 };
      };
      world = (ready.answer sync_command (device.open_port w).world).world;
    }

  module _ (fresh fresh' : Fresh) (file file' : List ℕ)
      (blocks blocks' ssp_address ssp_address' : ℕ) (is : IsFirmware file blocks)
      (is' : IsFirmware file' blocks') (block ending : ℕ) (w : W) where
    abbrev first : Done W Launched
    first = call_of fresh file blocks ssp_address is w

    abbrev second : Done W Launched
    second = call_of fresh' file' blocks' ssp_address' is' first.world

    abbrev both_created : Threads W
    both_created = after_launch device (after_launch device (at_start block ending w) first) second

    abbrev both_running : Threads W
    both_running = after_begin device (after_begin device both_created 1) 0
