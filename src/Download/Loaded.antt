-- ===== src/Download/Loaded.antt =====
-- The thread of a download, from the first packet to the last block, with a unit that takes it.
pub mod Program
pub mod Blocks
use e_ssp.Base.{ℕ}
