-- ===== src/Eth/Connect.antt =====
-- rleth/src/rleth.c: whether the card is up, and whether the network answers.
pub mod Outcome
use custom_public_library_rl.Common.{
  ℕ, zero, suc, ◌+◌, ◌*◌, ◌/◌, ◌%◌, ◌^◌, Bool, true, false, ◌&&◌, Option, none, some, List, [], ◌∷◌,
  ◌++◌, ok, ◌==◌, if◌then◌else◌, ℤ, pos, negsuc, Public, codes, length, replicate,
}
use custom_public_library_rl.Libc.{Bytes, memcpy, prefix}
use custom_public_library_rl.Libc.Inet.{Ipv4, inet_pton}
use custom_public_library_rl.Net.{Net, done, ◌>>=◌, ◌>>◌, lift, opens, closes}

-- An attempt of `rl_get_ethernet_card_state`: the answers of `socket` and of `ioctl`.
pub data CardTry : Type 0 where
  no_socket : CardTry
  no_flags : ℕ → CardTry
  has_flags : ℕ → ℕ → CardTry

-- IFF_UP is 0x1, IFF_RUNNING is 0x40.
abbrev pub is_up : ℕ → Bool
is_up flags = flags % 2 == 1 && flags / 64 % 2 == 1

-- `struct hostent`: the bytes of the array of pointers that `h_addr_list` points to, and the address
-- that its first pointer points to.
pub record Hostent : Type 0 where
  pub h_addr_list : Bytes
  pub first_address : Bytes
  pub h_length : ℕ

-- `struct sockaddr_in`: the port, and the bytes from `sin_addr` to the end.
pub record Sockaddr : Type 0 where
  pub sin_port : ℕ
  pub sin_addr : Bytes

-- `sin_addr` and the padding after it, cleared
abbrev pub cleared : Bytes
cleared = replicate 12 0

abbrev pub tcp_port : ℕ
tcp_port = 80

abbrev pub udp_port : ℕ
udp_port = 53

-- `connect` on a socket that does not block.
pub data Connecting : Type 0 where
  connected in_progress refused : Connecting

-- The message of `rl_get_ethernet_connect_udp`.
abbrev pub dns_query : Bytes
dns_query =
    18 ∷ 52 ∷ 1 ∷ 0 ∷ 0 ∷ 1 ∷ 0 ∷ 0 ∷ 0 ∷ 0 ∷ 0 ∷ 0 ∷ 3 ∷ codes "www"
    ++ (6 ∷ codes "google" ++ (3 ∷ codes "com" ++ (0 ∷ 0 ∷ 1 ∷ 0 ∷ 1 ∷ [])))

module _ ⦃public : Public⦄ where
  open public use {rl_success, rl_failed}

  abbrev pub after_pause : ℕ → ℤ × List ℕ → ℤ × List ℕ
  after_pause pause (code, pauses) = (code, pause ∷ pauses)

  -- A round of the loop; `rest` is the rounds after it.
  pub card_round : ℕ → Net (ℤ × List ℕ) → CardTry → Net (ℤ × List ℕ)
  card_round pause rest no_socket = do r ← rest; done (after_pause pause r)
  card_round pause rest (no_flags fd) = do opens fd; closes fd; r ← rest; done (after_pause pause r)
  card_round pause rest (has_flags fd flags) =
      if is_up flags
      then (do opens fd; closes fd; done (rl_success, []))
      else (do opens fd; closes fd; r ← rest; done (after_pause pause r))

  -- The loop with the rounds that are left.
  pub card_loop : ℕ → ℕ → (ℕ → CardTry) → ℕ → Net (ℤ × List ℕ)
  card_loop zero pause tries round = done (rl_failed, [])
  card_loop (suc left) pause tries round =
      card_round pause (card_loop left pause tries (round + 1)) (tries round)

  -- The return value, and the arguments of `usleep` in turn.
  pub rl_get_ethernet_card_state : (ℕ → CardTry) → ℕ → ℤ → Net (ℤ × List ℕ)
  rl_get_ethernet_card_state tries timeout_ms (negsuc n) = done (rl_failed, [])
  rl_get_ethernet_card_state tries timeout_ms (pos n) =
      card_loop n (timeout_ms * 1000 % 2 ^ 32) tries 0

  -- `memcpy(&server.sin_addr, host->h_addr_list, host->h_length)`
  pub server_of : ℕ → Hostent → Net Sockaddr
  server_of port host = do
    bytes ← lift (memcpy cleared host.h_addr_list host.h_length)
    done (record { sin_port = port; sin_addr = bytes })

  -- `connects` is what `connect` answers for an address.
  pub rl_get_ethernet_connect_tcp :
      (Sockaddr → Bool) → Option ℕ → (timeout_set : Bool) → Option Hostent → Net ℤ
  rl_get_ethernet_connect_tcp connects none timeout_set host = done rl_failed
  rl_get_ethernet_connect_tcp connects (some fd) timeout_set host = do
    opens fd
    if timeout_set
        then elim host [
          | none ↦ (do closes fd; done rl_failed)
          | some h ↦ (do
            server ← server_of tcp_port h
            if connects server
                then (do closes fd; done rl_success)
                else (do closes fd; done rl_failed))
        ]
        else (do closes fd; done rl_failed)

  -- What follows `connect` where it has not failed: `writable` is whether `select` returns 1, and
  -- `so_error` the error that `getsockopt` reads.
  pub wait_connected : ℕ → Bool → Option ℕ → Net ℤ
  wait_connected fd false so_error = do closes fd; done rl_failed
  wait_connected fd true none = do closes fd; done rl_failed
  wait_connected fd true (some error) =
      if error == 0 then (do closes fd; done rl_success) else (do closes fd; done rl_failed)

  pub start_connect : ℕ → Bool → Option ℕ → Connecting → Net ℤ
  start_connect fd writable so_error refused = do closes fd; done rl_failed
  start_connect fd writable so_error connected = wait_connected fd writable so_error
  start_connect fd writable so_error in_progress = wait_connected fd writable so_error

  pub rl_get_ethernet_connect_tcp_sel :
      (Sockaddr → Connecting)
      → Option ℕ
      → (nonblocking : Bool) → Option Hostent
      → (writable : Bool) → (so_error : Option ℕ) → Net ℤ
  rl_get_ethernet_connect_tcp_sel connects none nonblocking host writable so_error = done rl_failed
  rl_get_ethernet_connect_tcp_sel connects (some fd) nonblocking host writable so_error = do
    opens fd
    if nonblocking
        then elim host [
          | none ↦ (do closes fd; done rl_failed)
          | some h ↦ (do
            server ← server_of tcp_port h
            start_connect fd writable so_error (connects server))
        ]
        else (do closes fd; done rl_failed)

  -- `sends` is whether `sendto` succeeds, for the bytes, the address and the port; `receives` is the
  -- same of `recvfrom`.
  pub rl_get_ethernet_connect_udp : (Bytes → Ipv4 → ℕ → Bool) → Option ℕ → (receives : Bool) → Net ℤ
  rl_get_ethernet_connect_udp sends none receives = done rl_failed
  rl_get_ethernet_connect_udp sends (some fd) receives = do
    opens fd
    elim (inet_pton (codes "8.8.8.8")) [
      | none ↦ (do closes fd; done rl_failed)
      | some server ↦ (do
        buf ← lift (memcpy (replicate 512 0) dns_query (length dns_query))
        sent ← lift (prefix (length dns_query) buf)
        if sends sent server udp_port
            then if receives
              then (do closes fd; done rl_success)
              else (do closes fd; done rl_failed)
            else (do closes fd; done rl_failed))
    ]
