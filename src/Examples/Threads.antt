-- ===== src/Examples/Threads.antt =====
-- Two calls of `DownloadDataToTarget`, and what their threads do then.
use e_ssp.Base.{ℕ, false, List, [], some, ok, ◌≡◌, refl, fill, arith}
use e_ssp.Helpers.{with_request}
use e_ssp.Download.File.{ItlFile, is_itl, header_blocks, be32_at, block_count}
use e_ssp.Download.Port.{Done}
use e_ssp.Download.{Progress, Launched, download_data_to_target, check_target, negotiate_download}
use e_ssp.Download.Threads.{
  Threads, after_launch, after_begin, after_finish, launch, begin, finish, none_yet, then_step,
  AtMostOne, at_rest, Steps-AtMostOne,
}
use e_ssp.Examples.Download.{recorder, firmware, fresh}

abbrev not_begun : Progress
not_begun = record { download_in_progress = false; download_block = 0 }

abbrev file_to_send : ItlFile
file_to_send = record (fresh.itl) { f_data = firmware; number_of_blocks = 65537; ssp_address = 0 }

abbrev launched : Done (List ℕ) Launched
launched = record {
  result = record { code = 65537; thread = some file_to_send; progress = not_begun };
  world = [];
}

one_call : download_data_to_target recorder fresh firmware 0 0 not_begun [] ≡ ok launched
unfolding download_data_to_target check_target negotiate_download is_itl header_blocks recorder
    with_request fill be32_at block_count
one_call = refl

abbrev start : Threads (List ℕ)
start = record { progress = not_begun; world = []; created = 0; running = 0; ending = 0 }

abbrev one_created : Threads (List ℕ)
one_created = after_launch recorder start launched

Steps-AtMostOne_example :
    AtMostOne recorder (after_finish recorder (after_begin recorder one_created 0) 0)
Steps-AtMostOne_example =
    Steps-AtMostOne recorder
      (then_step start one_created _ (launch start fresh firmware 0 0 launched (λ w. refl) one_call)
        (then_step one_created (after_begin recorder one_created 0) _ (begin one_created 0 refl) (
          then_step (after_begin recorder one_created 0) _ _
            (finish (after_begin recorder one_created 0) 0 refl) (none_yet _))))
      (at_rest refl (omega arith) refl)
