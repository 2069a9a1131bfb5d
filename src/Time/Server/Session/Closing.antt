-- ===== src/Time/Server/Session/Closing.antt =====
-- The whole call: the socket around the exchange.
use custom_public_library_rl.Common.{
  ℕ, ◌≡◌, refl, Bool, Option, none, some, Run, ok, fault, Returns, returns, ℤ, Public,
}
use custom_public_library_rl.Libc.{Bytes}
use custom_public_library_rl.Net.{Fds, opens, closes_last}
use custom_public_library_rl.Time.{Tm}
use custom_public_library_rl.Time.Server.{Replies, exchange}
use custom_public_library_rl.Time.Server.Faultless.{exchange-Fine}
use custom_public_library_rl.Time.Server.Session.{with_socket, rl_get_time_from_server}

-- The descriptors afterwards are those before.
abbrev pub Kept : Fds → (ℤ × Tm) × Fds → Type 0
Kept fds (result, fds') = fds' ≡ fds

module _ ⦃public : Public⦄ (strptime : Bytes → Tm → Bool × Tm) where
  closed_after :
      (fd : ℕ) (fds : Fds) (m : Run (ℤ × Tm))
      → Returns (λ (x : ℤ × Tm). Unit {0}) m
      → (replies : Replies) (time : Tm) → exchange strptime replies time ≡ m
      → Returns (Kept fds) (with_socket strptime (some fd) replies time fds)
  unfolding with_socket opens
  closed_after fd fds (ok result) (returns h) replies time e =
      rw (e, closes_last fd fds) (returns refl)
  closed_after fd fds fault x replies time e = elim x [ ]

  any_socket :
      (o : Option ℕ) (replies : Replies) (time : Tm) (fds : Fds)
      → Returns (Kept fds) (with_socket strptime o replies time fds)
  unfolding with_socket
  any_socket none replies time fds = returns refl
  any_socket (some fd) replies time fds =
      closed_after fd fds (exchange strptime replies time) (exchange-Fine strptime replies time)
        replies time refl

  -- Whatever the server sends, in whatever pieces, and whichever call fails,
  -- `rl_get_time_from_server` never reads or writes outside its array of 2048 bytes, and the open
  -- descriptors afterwards are those before.
  pub server_closes :
      (replies : Replies) (time : Tm) (fds : Fds)
      → Returns (Kept fds) (rl_get_time_from_server strptime replies time fds)
  unfolding rl_get_time_from_server
  server_closes replies time fds = any_socket replies.socket replies time fds
