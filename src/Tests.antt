-- ===== src/Tests.antt =====
-- The theorems applied to concrete inputs, and the data that these share.
pub mod Strings
pub mod Device
pub mod Tracing
pub mod Journal
pub mod Processes
pub mod Network
pub mod Server
pub mod Threads
use custom_public_library_rl.Common.{
  arith, ◌≡◌, ◌≢◌, refl, Bool, true, false, ◌&&◌, not, ◌∷◌, ◌==◌, pos, negsuc, Public, ℕ, List, [],
}
use custom_public_library_rl.Libc.{Bytes}
pub use custom_public_library_rl.Libc.Text.{IsText-of}

-- `public.h` of a build
instance abbrev pub host : Public
host = record {
  rl_true = pos 1;
  rl_false = pos 0;
  rl_success = pos 0;
  rl_failed = negsuc 0;
  true_lem = refl;
  false_lem = refl;
  success_lem = refl;
  failed_lem = refl;
}
