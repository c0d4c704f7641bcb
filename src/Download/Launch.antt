-- ===== src/Download/Launch.antt =====
-- Every result of the checks before a download.
use e_ssp.Base.{ℕ, ◌<◌, u32, Bool, true, false, List, none, some, Run, ok, Post, ◌≡◌, ◌⊎◌, refl}
use e_ssp.Download.File.{ItlFile, is_itl, header_blocks}
use e_ssp.Download.Port.{Done}
use e_ssp.Download.{Launched, not_itl_file, port_open_fail, sync_connection_fail}

-- No thread runs, and the return value is one of three errors.
pub record Refused (r : Launched) : Type 0 where
  pub no_thread : r.thread ≡ none
  pub error :
      (r.code ≡ not_itl_file) ⊎ ((r.code ≡ port_open_fail) ⊎ (r.code ≡ sync_connection_fail))

-- The thread runs on a file with the header of one, and the return value is its number of blocks;
-- when a key is given the file is sent encrypted under it.
pub record Started (file : List ℕ) (ssp_address key : ℕ) (r : Launched) : Type 0 where
  pub itl : ItlFile
  pub thread : r.thread ≡ some itl
  pub code : r.code ≡ u32 itl.number_of_blocks
  pub header : is_itl file ≡ ok true
  pub blocks : header_blocks file ≡ ok itl.number_of_blocks
  pub whole : itl.f_data ≡ file
  pub address : itl.ssp_address ≡ ssp_address
  pub encrypted : 0 < key → (itl.encryption_status ≡ true) × (itl.key.fixed_key ≡ key)

-- A choice by a test that is remembered.
pub Post-test :
    {A : Type 0} (Q : A → Type 0) (x y : Run A) (b : Bool)
    → (b ≡ true → Post Q x)
    → (b ≡ false → Post Q y)
    → Post Q (elim b as (λ c. Run A) [ true ↦ x | false ↦ y ])
Post-test Q x y true p q = p refl
Post-test Q x y false p q = q refl

abbrev Settled : {W : Type 0} → List ℕ → ℕ → ℕ → Done W Launched → Type 0
Settled file ssp_address key d = Refused d.result ⊎ Started file ssp_address key d.result
