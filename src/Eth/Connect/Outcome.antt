-- ===== src/Eth/Connect/Outcome.antt =====
-- The attempts on the card, and what the connections test.
use custom_public_library_rl.Common.{
  ℕ, zero, suc, ◌+◌, ◌*◌, ◌%◌, ◌^◌, ◌≤◌, ◌≡◌, ◌∙◌, refl, Bool, true, false, ◌&&◌, Option, none,
  some, List, [], ◌∷◌, ◌++◌, Run, ok, take, drop, replicate, length, length-take, ◌==◌,
  if◌then◌else◌, codes, arith, Bool-cases, inl, inr, ℤ, pos, Public,
}
use custom_public_library_rl.Libc.{Bytes, memcpy, prefix, write}
use custom_public_library_rl.Libc.Access.{prefix-take, prefix-append, write_within}
use custom_public_library_rl.Net.{Fds, Net, opens, closes_last}
use custom_public_library_rl.Eth.Connect.{
  CardTry, no_socket, no_flags, has_flags, is_up, Hostent, Sockaddr, cleared, tcp_port, Connecting,
  connected, in_progress, refused, after_pause, card_round, card_loop, rl_get_ethernet_card_state,
  server_of, rl_get_ethernet_connect_tcp, wait_connected, start_connect,
  rl_get_ethernet_connect_tcp_sel, rl_get_ethernet_connect_udp, dns_query, udp_port,
}
use custom_public_library_rl.Libc.Inet.{Ipv4, inet_pton, octet, dot_octet, digits}

-- 8.8.8.8
abbrev pub google : Ipv4
google = record { b0 = 8; b1 = 8; b2 = 8; b3 = 8 }

-- The attempt sees the card up and running.
abbrev sees_up : CardTry → Bool
sees_up no_socket = false
sees_up (no_flags fd) = false
sees_up (has_flags fd flags) = is_up flags

-- The first of the next `left` attempts, from number `round` on, that sees the card up.
abbrev first_up : ℕ → (ℕ → CardTry) → ℕ → Option ℕ
first_up zero tries round = none
first_up (suc left) tries round =
    let rest = first_up left tries (round + 1) in
    if sees_up (tries round) then some 0 else elim rest [ none ↦ none | some k ↦ some (suc k) ]

module _ ⦃public : Public⦄ where
  open public use {rl_success, rl_failed}

  abbrev card_outcome : ℕ → ℕ → Option ℕ → ℤ × List ℕ
  card_outcome left pause none = (rl_failed, replicate left pause)
  card_outcome left pause (some k) = (rl_success, replicate k pause)

  round_up :
      (pause : ℕ) (rest : Net (ℤ × List ℕ)) (t : CardTry) (fds : Fds)
      → sees_up t ≡ true
      → card_round pause rest t fds ≡ ok ((rl_success, []), fds)
  unfolding card_round opens
  round_up pause rest no_socket fds h = cc
  round_up pause rest (no_flags fd) fds h = cc
  round_up pause rest (has_flags fd flags) fds h = rw (h, closes_last fd fds) refl

  round_down :
      (pause : ℕ) (rest : Net (ℤ × List ℕ)) (t : CardTry) (fds : Fds) (r : ℤ × List ℕ)
      → sees_up t ≡ false
      → rest fds ≡ ok (r, fds)
      → card_round pause rest t fds ≡ ok (after_pause pause r, fds)
  unfolding card_round opens
  round_down pause rest no_socket fds r h e = rw e refl
  round_down pause rest (no_flags fd) fds r h e = rw (closes_last fd fds, e) refl
  round_down pause rest (has_flags fd flags) fds r h e = rw (h, closes_last fd fds, e) refl

  card_loop_lem :
      (left pause : ℕ) (tries : ℕ → CardTry) (round : ℕ) (fds : Fds)
      → card_loop left pause tries round fds
        ≡ ok (card_outcome left pause (first_up left tries round), fds)
  unfolding card_loop
  card_loop_lem zero pause tries round fds = refl
  card_loop_lem (suc left) pause tries round fds =
      let ih = card_loop_lem left pause tries (round + 1) fds in
      elim (Bool-cases (sees_up (tries round))) [
        | inl e ↦ rw e (round_up pause (card_loop left pause tries (round + 1)) (tries round) fds e)
        | inr e ↦ rw e (
            round_down pause (card_loop left pause tries (round + 1)) (tries round) fds
              (card_outcome left pause (first_up left tries (round + 1))) e ih
            ∙ (later left pause (first_up left tries (round + 1)) fds))
      ]
    where
      later :
          (left pause : ℕ) (o : Option ℕ) (fds : Fds)
          → ◌≡◌ {A = Run ((ℤ × List ℕ) × Fds)}
              (ok (after_pause pause (card_outcome left pause o), fds))
              (ok (
                card_outcome (suc left) pause (elim o [ none ↦ none | some k ↦ some (suc k) ]),
                fds,
              ))
      later left pause none fds = refl
      later left pause (some k) fds = refl

  -- With a `retry_count` of `n`, `rl_get_ethernet_card_state` returns RL_SUCCESS at the first of
  -- `n` attempts that sees the card up and running, after a pause of `timeout_ms` * 1000 modulo
  -- 2^32 for each attempt before it, and RL_FAILED after `n` pauses where there is none; no socket
  -- stays open.
  pub card_state_lem :
      (tries : ℕ → CardTry) (timeout_ms n : ℕ) (fds : Fds)
      → rl_get_ethernet_card_state tries timeout_ms (pos n) fds
        ≡ ok (card_outcome n (timeout_ms * 1000 % 2 ^ 32) (first_up n tries 0), fds)
  unfolding rl_get_ethernet_card_state
  card_state_lem tries timeout_ms n fds = card_loop_lem n (timeout_ms * 1000 % 2 ^ 32) tries 0 fds

  -- The address that is connected to: bytes of the array of pointers.
  abbrev pointer_address : Hostent → Sockaddr
  pointer_address h = record {
    sin_port = tcp_port;
    sin_addr = take h.h_length h.h_addr_list ++ drop h.h_length cleared;
  }

  server_lem :
      (h : Hostent) (fds : Fds)
      → h.h_length ≤ 12
      → h.h_length ≤ length h.h_addr_list
      → server_of tcp_port h fds ≡ ok (pointer_address h, fds)
  unfolding server_of memcpy
  server_lem h fds small room =
      let size : length (take h.h_length h.h_addr_list) ≡ h.h_length =
        omega (arith, length-take h.h_length h.h_addr_list) in
      rw
        (
          prefix-take h.h_length h.h_addr_list room,
          write_within cleared 0 (take h.h_length h.h_addr_list) (omega (arith, size)),
          size,
        )
        refl

  -- Where the socket opens, the name is found, and `h_length` is at most 12 and at most the size
  -- of the array of pointers, `rl_get_ethernet_connect_tcp` returns RL_SUCCESS exactly when the
  -- timeout is set and `connect` takes the address that the first bytes of the array of pointers
  -- spell, and closes the socket.
  pub connect_tcp_lem :
      (connects : Sockaddr → Bool) (fd : ℕ) (timeout_set : Bool) (h : Hostent) (fds : Fds)
      → h.h_length ≤ 12
      → h.h_length ≤ length h.h_addr_list
      → rl_get_ethernet_connect_tcp connects (some fd) timeout_set (some h) fds
        ≡ ok (if timeout_set && connects (pointer_address h) then rl_success else rl_failed, fds)
  unfolding rl_get_ethernet_connect_tcp opens
  connect_tcp_lem connects fd false h fds small room = rw (closes_last fd fds) refl
  connect_tcp_lem connects fd true h fds small room =
      elim (Bool-cases (connects (pointer_address h))) [
        | inl e ↦ rw (server_lem h (fd ∷ fds) small room, e, closes_last fd fds) refl
        | inr e ↦ rw (server_lem h (fd ∷ fds) small room, e, closes_last fd fds) refl
      ]

  abbrev no_error : Option ℕ → Bool
  no_error none = false
  no_error (some error) = error == 0

  -- The connection has been made when `select` returns, and the socket reports no error.
  abbrev answered : Connecting → Bool → Option ℕ → Bool
  answered refused writable so_error = false
  answered connected writable so_error = writable && no_error so_error
  answered in_progress writable so_error = writable && no_error so_error

  wait_lem :
      (fd : ℕ) (writable : Bool) (so_error : Option ℕ) (fds : Fds)
      → wait_connected fd writable so_error (fd ∷ fds)
        ≡ ok (if answered connected writable so_error then rl_success else rl_failed, fds)
  unfolding wait_connected
  wait_lem fd false so_error fds = rw (closes_last fd fds) refl
  wait_lem fd true none fds = rw (closes_last fd fds) refl
  wait_lem fd true (some error) fds = elim (Bool-cases (error == 0)) [
    | inl e ↦ rw (e, closes_last fd fds) refl
    | inr e ↦ rw (e, closes_last fd fds) refl
  ]

  start_lem :
      (c : Connecting) (fd : ℕ) (writable : Bool) (so_error : Option ℕ) (fds : Fds)
      → start_connect fd writable so_error c (fd ∷ fds)
        ≡ ok (if answered c writable so_error then rl_success else rl_failed, fds)
  unfolding start_connect
  start_lem refused fd writable so_error fds = rw (closes_last fd fds) refl
  start_lem connected fd writable so_error fds = wait_lem fd writable so_error fds
  start_lem in_progress fd writable so_error fds = wait_lem fd writable so_error fds

  -- The test that does not block succeeds exactly when the socket was made not to block, `connect`
  -- takes the bytes of the array of pointers or waits, and the socket is then writable without an
  -- error; it closes the socket.
  connect_tcp_sel_lem :
      (connects : Sockaddr → Connecting) (fd : ℕ) (nonblocking writable : Bool)
      (so_error : Option ℕ) (h : Hostent) (fds : Fds)
      → h.h_length ≤ 12
      → h.h_length ≤ length h.h_addr_list
      → rl_get_ethernet_connect_tcp_sel connects
          (some fd)
          nonblocking
          (some h)
          writable
          so_error
          fds
        ≡ ok (
          if nonblocking && answered (connects (pointer_address h)) writable so_error
              then rl_success
              else rl_failed,
          fds,
        )
  unfolding rl_get_ethernet_connect_tcp_sel opens
  connect_tcp_sel_lem connects fd false writable so_error h fds small room =
      rw (closes_last fd fds) refl
  connect_tcp_sel_lem connects fd true writable so_error h fds small room =
      rw (server_lem h (fd ∷ fds) small room)
        (start_lem (connects (pointer_address h)) fd writable so_error fds)

  udp_server : inet_pton (codes "8.8.8.8") ≡ some google
  unfolding inet_pton octet dot_octet digits
  udp_server = refl

  query_copied :
      memcpy (replicate 512 0) dns_query (length dns_query) ≡ ok (dns_query ++ replicate 480 0)
  unfolding memcpy prefix write
  query_copied = refl

  query_sent : prefix (length dns_query) (dns_query ++ replicate 480 0) ≡ ok dns_query
  query_sent = prefix-append dns_query (replicate 480 0)

  -- The test with a query for a name succeeds exactly when `sendto` takes the query for 8.8.8.8
  -- and an answer comes; it closes the socket.
  connect_udp_lem :
      (sends : Bytes → Ipv4 → ℕ → Bool) (fd : ℕ) (receives : Bool) (fds : Fds)
      → rl_get_ethernet_connect_udp sends (some fd) receives fds
        ≡ ok (if sends dns_query google udp_port && receives then rl_success else rl_failed, fds)
  unfolding rl_get_ethernet_connect_udp opens
  connect_udp_lem sends fd receives fds = elim (Bool-cases (sends dns_query google udp_port)) [
    | inl e ↦ elim (Bool-cases receives) [
      | inl e' ↦ rw (udp_server, query_copied, query_sent, e, e', closes_last fd fds) refl
      | inr e' ↦ rw (udp_server, query_copied, query_sent, e, e', closes_last fd fds) refl
    ]
    | inr e ↦ rw (udp_server, query_copied, query_sent, e, closes_last fd fds) refl
  ]
