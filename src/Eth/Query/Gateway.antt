-- ===== src/Eth/Query/Gateway.antt =====
-- `rl_get_gateway` on a routing table.
use custom_public_library_rl.Common.{
  ℕ, ◌≤◌, ◌<◌, ◌≡◌, ◌≢◌, refl, Bool, ◌&&◌, Option, none, some, List, [], ◌∷◌, ◌++◌, ok, fault,
  length, ne→==, if◌then◌else◌, arith, Bool-cases, inl, inr, All, ℤ, Public, codes,
}
use custom_public_library_rl.Libc.{Bytes}
use custom_public_library_rl.Libc.Scan.Hex.{spelled}
use custom_public_library_rl.Libc.Scan.Lines.{
  IsLine, content_of, with_newlines, lines_256-content_of,
}
use custom_public_library_rl.Libc.Inet.{Ipv4}
use custom_public_library_rl.Libc.Inet.RoundTrip.{length-dotted}
use custom_public_library_rl.Net.{Fds, closes_last, opens}
use custom_public_library_rl.Str.Compare.{equal, Differs}
use custom_public_library_rl.Eth.{
  scan_route, is_default, of_s_addr, gateway_route, gateway_loop, or_next_pair,
}
use custom_public_library_rl.Eth.Query.Address.{holding, ntop_fits}
use custom_public_library_rl.Eth.Query.Dhcp.{eth0-IsText}
use custom_public_library_rl.Eth.Query.Words.{IsPrinted, same_token}
use custom_public_library_rl.Eth.Query.{rl_get_gateway}
use custom_public_library_rl.Eth.Query.Routes.{
  RouteLine, texts_of, IsRouteLine, route, scan_route_lem, IsIpv4-of_s_addr, texts_IsLine, overlong,
}

-- The gateway of the first default route over the card.
abbrev goes_through : RouteLine → Bool
goes_through l = is_default (route l) && equal l.card (codes "eth0")

unfoldable pub default_gateway : List RouteLine → Option Ipv4
default_gateway [] = none
default_gateway (l ∷ ls) =
    let rest = default_gateway ls in
    if goes_through l then some (of_s_addr (spelled 0 l.gw)) else rest

module _ ⦃public : Public⦄ where
  open public use {rl_success, rl_failed}

  abbrev gateway_answer : Option Ipv4 → Bytes → ℤ × Bytes
  gateway_answer none b = (rl_failed, b)
  gateway_answer (some a) b = (rl_success, holding a b)

  -- What a line decides.
  abbrev decision : RouteLine → Bytes → Option (ℤ × Bytes)
  decision l b =
      if goes_through l then some (rl_success, holding (of_s_addr (spelled 0 l.gw)) b) else none

  route_lem :
      (diff : ℕ → ℕ → ℤ) (l : RouteLine) (b : Bytes) (len : ℕ)
      → Differs diff
      → IsRouteLine l
      → 16 ≤ len
      → len ≤ length b
      → gateway_route diff b len (route l) ≡ ok (decision l b)
  unfolding gateway_route
  route_lem diff l b len d (ne, h, _, _, _, _, _) enough room =
      elim (Bool-cases (is_default (route l))) [
        | inr e ↦ rw e refl
        | inl e ↦ elim (Bool-cases (equal l.card (codes "eth0"))) [
          | inr e' ↦ rw (e, same_token diff l.card (codes "eth0") d (ne, h) eth0-IsText, e') refl
          | inl e' ↦
              let a = of_s_addr (spelled 0 l.gw) in
              let (_, short) = length-dotted a (IsIpv4-of_s_addr (spelled 0 l.gw)) in
              rw
                (
                  e,
                  same_token diff l.card (codes "eth0") d (ne, h) eth0-IsText,
                  e',
                  ntop_fits a b len (omega (arith, short, enough)) room,
                )
                refl
        ]
      ]

  or_next_lem :
      (diff : ℕ → ℕ → ℤ) (l : RouteLine) (ls : List RouteLine) (b : Bytes)
      → or_next_pair diff (decision l b) (ok (gateway_answer (default_gateway ls) b))
        ≡ ok (gateway_answer (default_gateway (l ∷ ls)) b)
  unfolding default_gateway
  or_next_lem diff l ls b = elim (Bool-cases (goes_through l)) [
    | inl e ↦ rw e refl
    | inr e ↦ rw e refl
  ]

  gateway_loop_lem :
      (diff : ℕ → ℕ → ℤ) (ls : List RouteLine) (b : Bytes) (len : ℕ)
      → Differs diff
      → All IsRouteLine ls
      → 16 ≤ len
      → len ≤ length b
      → gateway_loop diff b len (with_newlines (texts_of ls))
        ≡ ok (gateway_answer (default_gateway ls) b)
  unfolding gateway_loop default_gateway
  gateway_loop_lem diff [] b len d h enough room = refl
  gateway_loop_lem diff (l ∷ ls) b len d (hl, h) enough room =
      rw
        (
          scan_route_lem l hl,
          route_lem diff l b len d hl enough room,
          gateway_loop_lem diff ls b len d h enough room,
        )
        (or_next_lem diff l ls b)

  -- On a routing table of a first line and routes, each of less than 255 bytes and without a NUL,
  -- whose cards have at most 15 bytes and whose numbers are printed in hexadecimal and fit 32
  -- bits, with a buffer of at least `len` bytes and a `len` of at least 16, `rl_get_gateway` never
  -- faults and closes the file. It writes the gateway of the first default route of eth0 in dotted
  -- form and returns RL_SUCCESS, or leaves the buffer and returns RL_FAILED where there is none,
  -- if the value that the C library returns at bytes that differ is not zero.
  pub gateway_lem :
      (diff : ℕ → ℕ → ℤ) (fd len c : ℕ) (b header : Bytes) (ls : List RouteLine) (fds : Fds)
      → Differs diff
      → IsLine header
      → All IsRouteLine ls
      → 16 ≤ len
      → len ≤ length (c ∷ b)
      → rl_get_gateway diff (some (fd, content_of (header ∷ texts_of ls))) (some (c ∷ b)) len fds
        ≡ (let (code, buf) = gateway_answer (default_gateway ls) (c ∷ b) in
            ok ((code, some buf), fds))
  unfolding rl_get_gateway opens
  gateway_lem diff fd len c b header ls fds d hh h enough room =
      rw
        (
          ne→== len 0 (omega (arith, enough)),
          lines_256-content_of (header ∷ texts_of ls) (hh, texts_IsLine ls h),
          gateway_loop_lem diff ls (c ∷ b) len d h enough room,
          closes_last fd fds,
        )
        refl

  gateway_loop_fault :
      (diff : ℕ → ℕ → ℤ) (b line : Bytes) (len : ℕ) (lines : List Bytes)
      → scan_route line ≡ fault
      → gateway_loop diff b len (line ∷ lines) ≡ fault
  unfolding gateway_loop
  gateway_loop_fault diff b line len lines e = rw e refl

  -- A first word of at least 16 bytes in the first line of the table behind its heading is written
  -- past the end of the array.
  gateway_overlong :
      (diff : ℕ → ℕ → ℤ) (fd len c : ℕ) (b header card tail : Bytes) (ls : List Bytes) (fds : Fds)
      → 0 < len
      → card ≢ []
      → All IsPrinted card
      → 16 ≤ length card
      → All IsLine (header ∷ (card ++ (b'\t' ∷ tail)) ∷ ls)
      → rl_get_gateway diff
          (some (fd, content_of (header ∷ (card ++ (b'\t' ∷ tail)) ∷ ls)))
          (some (c ∷ b))
          len
          fds
        ≡ fault
  unfolding rl_get_gateway opens
  gateway_overlong diff fd len c b header card tail ls fds positive ne h long lines =
      rw
        (
          ne→== len 0 (omega (arith, positive)),
          lines_256-content_of (header ∷ (card ++ (b'\t' ∷ tail)) ∷ ls) lines,
          gateway_loop_fault diff (c ∷ b) ((card ++ (b'\t' ∷ tail)) ++ (b'\n' ∷ [])) len
              (with_newlines ls) (overlong card tail (b'\n' ∷ []) ne h long),
        )
        refl
