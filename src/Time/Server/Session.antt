-- ===== src/Time/Server/Session.antt =====
-- `rl_get_time_from_server` as a whole: the socket around the exchange.
pub mod Closing
pub mod Answer
use custom_public_library_rl.Common.{ℕ, Bool, Option, none, some, ℤ, Public}
use custom_public_library_rl.Libc.{Bytes}
use custom_public_library_rl.Net.{Net, done, ◌>>=◌, ◌>>◌, lift, opens, closes}
use custom_public_library_rl.Time.{Tm}
use custom_public_library_rl.Time.Server.{Replies, exchange}

module _ ⦃public : Public⦄ (strptime : Bytes → Tm → Bool × Tm) where
  open public use {rl_failed}

  -- Each return behind `socket` closes it first.
  pub with_socket : Option ℕ → Replies → Tm → Net (ℤ × Tm)
  with_socket none replies time = done (rl_failed, time)
  with_socket (some fd) replies time = do
    opens fd
    result ← lift (exchange strptime replies time)
    closes fd
    done result

  pub rl_get_time_from_server : Replies → Tm → Net (ℤ × Tm)
  rl_get_time_from_server replies time = with_socket replies.socket replies time
